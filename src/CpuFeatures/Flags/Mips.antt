-- ===== src/CpuFeatures/Flags/Mips.antt =====
-- The HWCAP bits of MIPS in cpu-features.c and its features in cpu-features.h, which agree.
use Prim.Native.Nat.{ℕ, ◌^◌}

abbrev pub r6 : ℕ
r6 = 2 ^ 0

abbrev pub msa : ℕ
msa = 2 ^ 1
