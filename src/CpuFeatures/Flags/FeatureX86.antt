-- ===== src/CpuFeatures/Flags/FeatureX86.antt =====
-- The features of x86 in cpu-features.h.
use Prim.Native.Nat.{ℕ, ◌^◌}

abbrev pub ssse3 : ℕ
ssse3 = 2 ^ 0

abbrev pub popcnt : ℕ
popcnt = 2 ^ 1

abbrev pub movbe : ℕ
movbe = 2 ^ 2

abbrev pub sse4_1 : ℕ
sse4_1 = 2 ^ 3

abbrev pub sse4_2 : ℕ
sse4_2 = 2 ^ 4

abbrev pub aes_ni : ℕ
aes_ni = 2 ^ 5

abbrev pub avx : ℕ
avx = 2 ^ 6

abbrev pub rdrand : ℕ
rdrand = 2 ^ 7

abbrev pub avx2 : ℕ
avx2 = 2 ^ 8

abbrev pub sha_ni : ℕ
sha_ni = 2 ^ 9
