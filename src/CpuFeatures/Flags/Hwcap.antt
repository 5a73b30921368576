-- ===== src/CpuFeatures/Flags/Hwcap.antt =====
-- The HWCAP bits of 32-bit ARM in cpu-features.c.
use Prim.Native.Nat.{ℕ, ◌^◌, ◌+◌}

abbrev pub vfp : ℕ
vfp = 2 ^ 6

abbrev pub iwmmxt : ℕ
iwmmxt = 2 ^ 9

abbrev pub neon : ℕ
neon = 2 ^ 12

abbrev pub vfpv3 : ℕ
vfpv3 = 2 ^ 13

abbrev pub vfpv3d16 : ℕ
vfpv3d16 = 2 ^ 14

abbrev pub vfpv4 : ℕ
vfpv4 = 2 ^ 16

abbrev pub idiva : ℕ
idiva = 2 ^ 17

abbrev pub idivt : ℕ
idivt = 2 ^ 18

-- `HWCAP_SET_FOR_ARMV8`: different bits, so that `|` is `+`.
abbrev pub set_for_armv8 : ℕ
set_for_armv8 = vfp + neon + vfpv3 + vfpv4 + idiva + idivt
