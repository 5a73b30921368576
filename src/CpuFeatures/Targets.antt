-- ===== src/CpuFeatures/Targets.antt =====
-- The parts of `android_cpuInit` of cpu-features.c for 64-bit ARM, x86 and MIPS, and
-- `android_cpuInitFamily`.
use ndk.Base.{ℕ, ◌^◌, Bool, ◌&&◌, ◌==◌, if◌then◌else◌}
use ndk.Base.Bits.{test_bit}
use ndk.CpuFeatures.Flags.Hwcap64
use ndk.CpuFeatures.Flags.Feature64
use ndk.CpuFeatures.Flags.FeatureX86
use ndk.CpuFeatures.Flags.Mips
use ndk.CpuFeatures.Flags.{or_if}

-- What the library is compiled for.
pub data Target : Type 0 where
  arm x86 mips64 mips arm64 x86_64 unknown : Target

-- `enum AndroidCpuFamily`, and the constant that `android_cpuInitFamily` stores.
abbrev pub cpu_family : Target → ℕ
cpu_family unknown = 0
cpu_family arm = 1
cpu_family x86 = 2
cpu_family mips = 3
cpu_family arm64 = 4
cpu_family x86_64 = 5
cpu_family mips64 = 6

unfoldable pub arm64_features : ℕ → ℕ → ℕ
arm64_features hwcaps features =
    let f1 = or_if (test_bit hwcaps Hwcap64.fp) Feature64.fp features in
    let f2 = or_if (test_bit hwcaps Hwcap64.asimd) Feature64.asimd f1 in
    let f3 = or_if (test_bit hwcaps Hwcap64.aes) Feature64.aes f2 in
    let f4 = or_if (test_bit hwcaps Hwcap64.pmull) Feature64.pmull f3 in
    let f5 = or_if (test_bit hwcaps Hwcap64.sha1) Feature64.sha1 f4 in
    let f6 = or_if (test_bit hwcaps Hwcap64.sha2) Feature64.sha2 f5 in
    let f7 = or_if (test_bit hwcaps Hwcap64.crc32) Feature64.crc32 f6 in
    if hwcaps == 0 then features else f7

-- `values[0..3]` of `x86_cpuid`, as bit patterns.
pub record Regs : Type 0 where
  pub a : ℕ
  pub b : ℕ
  pub c : ℕ
  pub d : ℕ

-- "GenuineIntel"
unfoldable pub vendor_is_intel : Regs → Bool
vendor_is_intel r = r.b == 0x756e6547 && r.c == 0x6c65746e && r.d == 0x49656e69

unfoldable pub x86_features : (ℕ → Regs) → ℕ → ℕ
x86_features x86_cpuid features =
    let intel = vendor_is_intel (x86_cpuid 0) in
    let c = (x86_cpuid 1).c in
    let b = (x86_cpuid 7).b in
    let f1 = or_if (test_bit c (2 ^ 9)) FeatureX86.ssse3 features in
    let f2 = or_if (test_bit c (2 ^ 23)) FeatureX86.popcnt f1 in
    let f3 = or_if (test_bit c (2 ^ 19)) FeatureX86.sse4_1 f2 in
    let f4 = or_if (test_bit c (2 ^ 20)) FeatureX86.sse4_2 f3 in
    let f5 = or_if (intel && test_bit c (2 ^ 22)) FeatureX86.movbe f4 in
    let f6 = or_if (test_bit c (2 ^ 25)) FeatureX86.aes_ni f5 in
    let f7 = or_if (test_bit c (2 ^ 28)) FeatureX86.avx f6 in
    let f8 = or_if (test_bit c (2 ^ 30)) FeatureX86.rdrand f7 in
    let f9 = or_if (test_bit b (2 ^ 5)) FeatureX86.avx2 f8 in
    or_if (test_bit b (2 ^ 29)) FeatureX86.sha_ni f9

unfoldable pub mips_features : ℕ → ℕ → ℕ
mips_features hwcaps features =
    let f1 = or_if (test_bit hwcaps Mips.r6) Mips.r6 features in
    let f2 = or_if (test_bit hwcaps Mips.msa) Mips.msa f1 in if hwcaps == 0 then features else f2
