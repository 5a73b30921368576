-- ===== src/Tests/Features.antt =====
-- Features, processor ids, counts of CPUs and the public functions, on small devices.
use ndk.Base.{ℕ, ◌+◌, ◌^◌, ◌≡◌, ◌&&◌, refl, Bool, true, none, some, [], ◌∷◌, Bytes, codes, arith}
use ndk.Base.CString.{strtol}
use ndk.Base.Checked.{ok}
use ndk.Tests.Parsing.{some_cpus, some_cpus-IsItem}
use ndk.CpuFeatures.Files.{got, File}
use ndk.CpuFeatures.CpuList.Parse.Notation.{covered}
use ndk.CpuFeatures.CpuList.Mask.{count_below}
use ndk.CpuFeatures.CpuInfo.{
  extract_cpuinfo_field, field_loop, memmem, field_value, value_at, copy_line, has_list_item,
  item_loop,
}
use ndk.CpuFeatures.Number.{parse_number, number_loop, digit}
use ndk.CpuFeatures.Hwcap.{
  Libc, no_libc, with_getauxval, get_elf_hwcap_from_getauxval, hwcaps_of_features,
}
use ndk.CpuFeatures.Hwcap.Laws.{BitsOfWords, hwcaps_of_features-words}
use ndk.CpuFeatures.Flags.{has, or_if}
use ndk.Base.Bits.{test_bit}
use ndk.CpuFeatures.Arm.{
  has_armv7, is_v6l, arm_hwcaps, add_cpu_id, hwcap2_features, implementer_entry, variant_entry,
  part_entry, revision_entry, cpu_id_entries, cpu_id_number, cpu_id_loop, fix_loop,
  hardware_features, hwcap_features, arch_features, arm_init,
}
use ndk.CpuFeatures.Arm.Features.{
  FeatureTable, IsConsistent, hwcap_features-FeatureTable, hwcap_features-IsConsistent,
  arm_init-IsConsistent,
}
use ndk.CpuFeatures.Arm.CpuId.{HasNumber, cpu_id_loop-pack}
use ndk.CpuFeatures.Targets.{arm}
use ndk.CpuFeatures.Init.{System, Globals, get_cpu_count}
use ndk.CpuFeatures.Init.Count.{IsCpuFile, get_cpu_count-covered}
use ndk.CpuFeatures.Api.{pthread_once, android_set_cpu, android_cpu_init_dummy}
use ndk.CpuFeatures.Api.Frozen.{
  get_features, get_count, set_cpu, performs, IsFrozen, performs-Frozen,
}

hwcaps_of_features-words_example :
    (h : ℕ) × (hwcaps_of_features (some (codes "vfpv4 neon idiv")) ≡ ok h)
    × BitsOfWords (codes "vfpv4 neon idiv") h
hwcaps_of_features-words_example = hwcaps_of_features-words (codes "vfpv4 neon idiv")

-- NEON and VFPv4, on a processor that has no feature yet.
hwcap_features-FeatureTable_example :
    FeatureTable (2 ^ 12 + 2 ^ 16) 0 (hwcap_features (2 ^ 12 + 2 ^ 16) 0)
hwcap_features-FeatureTable_example = hwcap_features-FeatureTable (2 ^ 12 + 2 ^ 16) 0 refl

nothing-IsConsistent : IsConsistent 0
unfolding has
nothing-IsConsistent = record {
  vfpv3 = λ e. cc;
  neon = λ e. cc;
  vfp_fma = λ e. cc;
  neon_fma = λ e. cc;
}

hwcap_features-IsConsistent_example : IsConsistent (hwcap_features (2 ^ 12) 0)
hwcap_features-IsConsistent_example = hwcap_features-IsConsistent (2 ^ 12) 0 nothing-IsConsistent

-- A Nexus 4, whose kernel reports no division.
abbrev krait : Bytes
krait =
    codes
      "Processor\t: ARMv7 (v7l)\nFeatures\t: vfpv4 neon\nCPU implementer\t: 0x51\nCPU architecture: 7\nCPU variant\t: 0x0\nCPU part\t: 0x06f\nCPU revision\t: 2\n"

abbrev any_size : ℕ → Bool
any_size n = true

implementer-HasNumber : HasNumber any_size krait implementer_entry 0x51
unfolding extract_cpuinfo_field field_loop memmem field_value value_at copy_line cpu_id_number
    parse_number number_loop digit
implementer-HasNumber = record { value = codes "0x51"; found = refl; reads = refl }

variant-HasNumber : HasNumber any_size krait variant_entry 0
unfolding extract_cpuinfo_field field_loop memmem field_value value_at copy_line cpu_id_number
    parse_number number_loop digit
variant-HasNumber = record { value = codes "0x0"; found = refl; reads = refl }

part-HasNumber : HasNumber any_size krait part_entry 0x6f
unfolding extract_cpuinfo_field field_loop memmem field_value value_at copy_line cpu_id_number
    parse_number number_loop digit
part-HasNumber = record { value = codes "0x06f"; found = refl; reads = refl }

revision-HasNumber : HasNumber any_size krait revision_entry 2
unfolding extract_cpuinfo_field field_loop memmem field_value value_at copy_line cpu_id_number
    parse_number number_loop digit
revision-HasNumber = record { value = codes "2"; found = refl; reads = refl }

cpu_id_loop-pack_example : cpu_id_loop any_size krait cpu_id_entries 0 ≡ ok 0x510006f2
cpu_id_loop-pack_example =
    cpu_id_loop-pack any_size krait 0x51 0 0x6f 2 implementer-HasNumber variant-HasNumber
      part-HasNumber revision-HasNumber

abbrev with_features : ℕ → Libc
with_features hwcaps = with_getauxval (λ _. hwcaps)

arm_init-IsConsistent_example : IsConsistent 0x7ff
unfolding arm_init extract_cpuinfo_field field_loop memmem field_value value_at arch_features
    copy_line has_armv7 strtol is_v6l has_list_item item_loop arm_hwcaps
    get_elf_hwcap_from_getauxval cpu_id_loop hardware_features test_bit add_cpu_id cpu_id_number
    fix_loop hwcap2_features hwcap_features or_if digit number_loop parse_number
arm_init-IsConsistent_example =
    arm_init-IsConsistent any_size (with_features (2 ^ 12 + 2 ^ 16)) none krait 1
      (record { features = 0; cpu_id = 0 }) refl nothing-IsConsistent

-- A device whose lists of CPUs are `0-3,7` both, and that has no /proc/cpuinfo.
abbrev cpu_file : File
cpu_file = got (codes "0-3,7\n") ∷ []

abbrev device : System
device = record {
  target = arm;
  alloc = any_size;
  cpuinfo_sized = none;
  cpuinfo_read = none;
  cpus_present = some cpu_file;
  cpus_possible = some cpu_file;
  libc = no_libc;
  auxv = none;
  x86_cpuid = λ _. record { a = 0; b = 0; c = 0; d = 0 };
}

cpu_file-IsCpuFile : IsCpuFile cpu_file some_cpus
cpu_file-IsCpuFile = record {
  rest = b'\n' ∷ [];
  text = refl;
  items = some_cpus-IsItem;
  ends = (refl, tt);
  fits = omega arith;
  whole = refl;
}

get_cpu_count-covered_example :
    get_cpu_count device ≡ ok (count_below 32 (λ i. covered i some_cpus && covered i some_cpus))
get_cpu_count-covered_example =
    get_cpu_count-covered device cpu_file cpu_file some_cpus some_cpus refl refl cpu_file-IsCpuFile
      cpu_file-IsCpuFile

abbrev set_globals : Globals
set_globals = record { once = true; inited = true; family = 1; features = 5; count = 4; cpu_id = 0 }

performs-Frozen_example :
    IsFrozen device set_globals
    × (performs device (set_cpu 8 9 ∷ get_count ∷ get_features ∷ []) set_globals
        ≡ ok (0 ∷ 4 ∷ 5 ∷ [], set_globals))
unfolding android_set_cpu pthread_once android_cpu_init_dummy
performs-Frozen_example =
    performs-Frozen device (set_cpu 4 5) (set_cpu 8 9 ∷ get_count ∷ get_features ∷ []) 1 set_globals
      refl
