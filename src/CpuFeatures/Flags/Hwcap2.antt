-- ===== src/CpuFeatures/Flags/Hwcap2.antt =====
-- The HWCAP2 bits of 32-bit ARM in cpu-features.c.
use Prim.Native.Nat.{ℕ, ◌^◌}

abbrev pub aes : ℕ
aes = 2 ^ 0

abbrev pub pmull : ℕ
pmull = 2 ^ 1

abbrev pub sha1 : ℕ
sha1 = 2 ^ 2

abbrev pub sha2 : ℕ
sha2 = 2 ^ 3

abbrev pub crc32 : ℕ
crc32 = 2 ^ 4
