-- ===== src/CpuFeatures/Arm.antt =====
-- The part of `android_cpuInit` of cpu-features.c that is compiled for 32-bit ARM: the features
-- word `g_cpuFeatures` and the processor's `g_cpuIdArm`.
pub mod Features
pub mod CpuId
use ndk.Base.{
  ℕ, zero, suc, ◌+◌, ◌-◌, ◌*◌, ◌%◌, ◌^◌, Bool, true, false, ◌&&◌, ◌||◌, not, Option, none, some,
  List, [], ◌∷◌, Bytes, codes, equal, bit_and, bit_or, ◌==◌, if◌then◌else◌,
}
use ndk.Base.Bits.{test_bit}
use ndk.Base.CString.{at_least, Strtol, strtol}
use ndk.Base.Checked.{Checked, ok, ◌>>=◌}
use ndk.CpuFeatures.Number.{parse_decimal, parse_hexadecimal}
use ndk.CpuFeatures.CpuInfo.{extract_cpuinfo_field}
use ndk.CpuFeatures.Hwcap.{
  Libc, AuxRead, at_hwcap, at_hwcap2, has_item, get_elf_hwcap_from_getauxval,
  get_elf_hwcap_from_proc_self_auxv, get_elf_hwcap_from_proc_cpuinfo,
}
use ndk.CpuFeatures.Flags.Hwcap
use ndk.CpuFeatures.Flags.Hwcap2
use ndk.CpuFeatures.Flags.Feature
use ndk.CpuFeatures.Flags.{or_if}

-- `has_list_item(cpuProc, "(v6l)")`, where the field is there.
unfoldable pub is_v6l : Option Bytes → Checked Bool
is_v6l none = ok false
is_v6l (some cpu_proc) = has_item cpu_proc (codes "(v6l)")

-- `hasARMv7`: the architecture number, corrected by the `Processor` field.
unfoldable pub has_armv7 : (ℕ → Bool) → Bytes → Strtol → Checked Bool
has_armv7 alloc cpuinfo arch = elim (arch.moved && at_least 7 arch.value) [
  | false ↦ ok false
  | true ↦ do
    cpu_proc ← extract_cpuinfo_field alloc cpuinfo b'P' (codes "rocessor")
    v6l ← is_v6l cpu_proc
    ok (not v6l)
]

-- The features that follow from the "CPU architecture" field.
unfoldable pub arch_features : (ℕ → Bool) → Bytes → Option Bytes → ℕ → Checked ℕ
arch_features alloc cpuinfo none features = ok features
arch_features alloc cpuinfo (some cpu_arch) features = do
  let arch = strtol cpu_arch
  armv7 ← has_armv7 alloc cpuinfo arch
  ok (or_if (at_least 6 arch.value) Feature.ldrex_strex (or_if armv7 Feature.armv7 features))

-- `hwcaps`: from `getauxval`, or /proc/self/auxv, or /proc/cpuinfo.
unfoldable pub arm_hwcaps : (ℕ → Bool) → Libc → Option (List AuxRead) → Bytes → Checked ℕ
arm_hwcaps alloc libc auxv cpuinfo =
    let from_libc = get_elf_hwcap_from_getauxval libc at_hwcap in
    let from_auxv = get_elf_hwcap_from_proc_self_auxv auxv in
    if not (from_libc == 0)
    then ok from_libc
    else if not (from_auxv == 0)
    then ok from_auxv
    else get_elf_hwcap_from_proc_cpuinfo alloc cpuinfo

-- The features that follow from a word of HWCAP bits; 0 has none and changes nothing.
unfoldable pub hwcap_features : ℕ → ℕ → ℕ
hwcap_features hwcaps features =
    let has_vfp = test_bit hwcaps Hwcap.vfp in
    let has_vfpv3 = test_bit hwcaps Hwcap.vfpv3 in
    let has_vfpv3d16 = test_bit hwcaps Hwcap.vfpv3d16 in
    let has_vfpv4 = test_bit hwcaps Hwcap.vfpv4 in
    let has_neon = test_bit hwcaps Hwcap.neon in
    let f1 = or_if has_vfpv4 (Feature.vfpv3 + Feature.vfp_fp16 + Feature.vfp_fma) features in
    let f2 = or_if (has_vfpv3 || has_vfpv3d16) Feature.vfpv3 f1 in
    let armv7 = test_bit f2 Feature.armv7 in
    let f3 =
      or_if (has_vfp && not armv7) Feature.vfpv2 (or_if (has_vfp && armv7) Feature.vfpv3 f2) in
    let f4 = or_if has_neon (Feature.vfpv3 + Feature.neon + Feature.vfp_d32) f3 in
    let f5 = or_if (has_neon && has_vfpv4) Feature.neon_fma f4 in
    let f6 = or_if (test_bit f5 Feature.vfpv3) (Feature.vfpv2 + Feature.armv7) f5 in
    let f7 = or_if (test_bit hwcaps Hwcap.idiva) Feature.idiv_arm f6 in
    let f8 = or_if (test_bit hwcaps Hwcap.idivt) Feature.idiv_thumb2 f7 in
    let f9 = or_if (test_bit hwcaps Hwcap.iwmmxt) Feature.iwmmxt f8 in
    if hwcaps == 0 then features else f9

unfoldable pub hwcap2_features : ℕ → ℕ → ℕ
hwcap2_features hwcaps2 features =
    let f1 = or_if (test_bit hwcaps2 Hwcap2.aes) Feature.aes features in
    let f2 = or_if (test_bit hwcaps2 Hwcap2.pmull) Feature.pmull f1 in
    let f3 = or_if (test_bit hwcaps2 Hwcap2.sha1) Feature.sha1 f2 in
    let f4 = or_if (test_bit hwcaps2 Hwcap2.sha2) Feature.sha2 f3 in
    let f5 = or_if (test_bit hwcaps2 Hwcap2.crc32) Feature.crc32 f4 in
    if hwcaps2 == 0 then features else f5

-- `struct CpuIdEntry`; the field's name is split at its first byte.
pub record CpuIdEntry : Type 0 where
  pub field : ℕ × Bytes
  pub is_hex : Bool
  pub bit_lshift : ℕ
  pub bit_length : ℕ

abbrev pub implementer_entry : CpuIdEntry
implementer_entry = record {
  field = (b'C', codes "PU implementer");
  is_hex = true;
  bit_lshift = 24;
  bit_length = 8;
}

abbrev pub variant_entry : CpuIdEntry
variant_entry = record {
  field = (b'C', codes "PU variant");
  is_hex = true;
  bit_lshift = 20;
  bit_length = 4;
}

abbrev pub part_entry : CpuIdEntry
part_entry = record {
  field = (b'C', codes "PU part");
  is_hex = true;
  bit_lshift = 4;
  bit_length = 12;
}

abbrev pub revision_entry : CpuIdEntry
revision_entry = record {
  field = (b'C', codes "PU revision");
  is_hex = false;
  bit_lshift = 0;
  bit_length = 4;
}

abbrev pub cpu_id_entries : List CpuIdEntry
cpu_id_entries = implementer_entry ∷ variant_entry ∷ part_entry ∷ revision_entry ∷ []

-- Behind "0x" or "0X".
abbrev hex_digits : Bytes → Option Bytes
hex_digits [] = none
hex_digits (a ∷ []) = none
hex_digits (a ∷ b ∷ start) = if a == b'0' && (b == b'x' || b == b'X') then some start else none

abbrev parsed_value : Option (ℕ × Bytes) → Option ℕ
parsed_value none = none
parsed_value (some (val, p)) = some val

-- `val`, or `none` where `p > start` fails: no number was read.
unfoldable pub cpu_id_number : Bool → Bytes → Option ℕ
cpu_id_number is_hex value = elim (hex_digits value) [
  | some start ↦ parsed_value (parse_hexadecimal start)
  | none ↦ parsed_value (if is_hex then parse_hexadecimal value else parse_decimal value)
]

-- `g_cpuIdArm` after one entry, whose field has this value.
unfoldable pub add_cpu_id : CpuIdEntry → Option Bytes → ℕ → ℕ
add_cpu_id e none cpu_id = cpu_id
add_cpu_id e (some value) cpu_id = elim (cpu_id_number e.is_hex value) [
  | none ↦ cpu_id
  | some val ↦ bit_or cpu_id (bit_and val (2 ^ e.bit_length - 1) * 2 ^ e.bit_lshift % 2 ^ 32)
]

unfoldable pub cpu_id_loop : (ℕ → Bool) → Bytes → List CpuIdEntry → ℕ → Checked ℕ
cpu_id_loop alloc cpuinfo [] cpu_id = ok cpu_id
cpu_id_loop alloc cpuinfo (e ∷ entries) cpu_id = do
  value ← extract_cpuinfo_field alloc cpuinfo e.field.0 e.field.1
  cpu_id_loop alloc cpuinfo entries (add_cpu_id e value cpu_id)

-- `struct CpuFix`
pub record CpuFix : Type 0 where
  pub cpuid : ℕ
  pub or_flags : ℕ

abbrev pub cpu_fixes : List CpuFix
cpu_fixes =
    record { cpuid = 0x510006f2; or_flags = Feature.idiv_arm + Feature.idiv_thumb2 }
    ∷ record { cpuid = 0x510006f3; or_flags = Feature.idiv_arm + Feature.idiv_thumb2 }
    ∷ []

unfoldable pub fix_loop : List CpuFix → ℕ → ℕ → ℕ
fix_loop [] cpu_id features = features
fix_loop (fix ∷ fixes) cpu_id features =
    fix_loop fixes cpu_id (or_if (cpu_id == fix.cpuid) fix.or_flags features)

-- The emulator's kernel. The source tests a bit of `g_cpuFamily` here, not of `g_cpuFeatures`.
unfoldable pub hardware_features : Option Bytes → ℕ → ℕ → ℕ → ℕ
hardware_features none cpu_family cpu_id features = features
hardware_features (some hardware) cpu_family cpu_id features =
    or_if
      (equal hardware (codes "Goldfish")
        && cpu_id == 0x4100c080
        && test_bit cpu_family Feature.armv7)
      Feature.idiv_arm features

pub record ArmState : Type 0 where
  pub features : ℕ
  pub cpu_id : ℕ

-- The whole block for `__arm__`.
unfoldable pub arm_init :
    (ℕ → Bool) → Libc → Option (List AuxRead) → Bytes → ℕ → ArmState → Checked ArmState
arm_init alloc libc auxv cpuinfo cpu_family s = do
  cpu_arch ← extract_cpuinfo_field alloc cpuinfo b'C' (codes "PU architecture")
  f1 ← arch_features alloc cpuinfo cpu_arch s.features
  hwcaps ← arm_hwcaps alloc libc auxv cpuinfo
  let f2 = hwcap_features hwcaps f1
  let f3 = hwcap2_features (get_elf_hwcap_from_getauxval libc at_hwcap2) f2
  cpu_id ← cpu_id_loop alloc cpuinfo cpu_id_entries s.cpu_id
  let f4 = fix_loop cpu_fixes cpu_id f3
  hardware ← extract_cpuinfo_field alloc cpuinfo b'H' (codes "ardware")
  ok (record { features = hardware_features hardware cpu_family cpu_id f4; cpu_id = cpu_id })
