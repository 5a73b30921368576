-- ===== src/CpuFeatures/Flags/Hwcap64.antt =====
-- The HWCAP bits of 64-bit ARM in cpu-features.c.
use Prim.Native.Nat.{ℕ, ◌^◌}

abbrev pub fp : ℕ
fp = 2 ^ 0

abbrev pub asimd : ℕ
asimd = 2 ^ 1

abbrev pub aes : ℕ
aes = 2 ^ 3

abbrev pub pmull : ℕ
pmull = 2 ^ 4

abbrev pub sha1 : ℕ
sha1 = 2 ^ 5

abbrev pub sha2 : ℕ
sha2 = 2 ^ 6

abbrev pub crc32 : ℕ
crc32 = 2 ^ 7
