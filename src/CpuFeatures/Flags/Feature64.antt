-- ===== src/CpuFeatures/Flags/Feature64.antt =====
-- The features of 64-bit ARM in cpu-features.h.
use Prim.Native.Nat.{ℕ, ◌^◌}

abbrev pub fp : ℕ
fp = 2 ^ 0

abbrev pub asimd : ℕ
asimd = 2 ^ 1

abbrev pub aes : ℕ
aes = 2 ^ 2

abbrev pub pmull : ℕ
pmull = 2 ^ 3

abbrev pub sha1 : ℕ
sha1 = 2 ^ 4

abbrev pub sha2 : ℕ
sha2 = 2 ^ 5

abbrev pub crc32 : ℕ
crc32 = 2 ^ 6
