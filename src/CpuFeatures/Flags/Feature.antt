-- ===== src/CpuFeatures/Flags/Feature.antt =====
-- The features of 32-bit ARM in cpu-features.h.
use Prim.Native.Nat.{ℕ, ◌^◌}

abbrev pub armv7 : ℕ
armv7 = 2 ^ 0

abbrev pub vfpv3 : ℕ
vfpv3 = 2 ^ 1

abbrev pub neon : ℕ
neon = 2 ^ 2

abbrev pub ldrex_strex : ℕ
ldrex_strex = 2 ^ 3

abbrev pub vfpv2 : ℕ
vfpv2 = 2 ^ 4

abbrev pub vfp_d32 : ℕ
vfp_d32 = 2 ^ 5

abbrev pub vfp_fp16 : ℕ
vfp_fp16 = 2 ^ 6

abbrev pub vfp_fma : ℕ
vfp_fma = 2 ^ 7

abbrev pub neon_fma : ℕ
neon_fma = 2 ^ 8

abbrev pub idiv_arm : ℕ
idiv_arm = 2 ^ 9

abbrev pub idiv_thumb2 : ℕ
idiv_thumb2 = 2 ^ 10

abbrev pub iwmmxt : ℕ
iwmmxt = 2 ^ 11

abbrev pub aes : ℕ
aes = 2 ^ 12

abbrev pub pmull : ℕ
pmull = 2 ^ 13

abbrev pub sha1 : ℕ
sha1 = 2 ^ 14

abbrev pub sha2 : ℕ
sha2 = 2 ^ 15

abbrev pub crc32 : ℕ
crc32 = 2 ^ 16
