-- ===== src/CpuFeatures/Hwcap.antt =====
-- Where cpu-features.c takes the kernel's HWCAP words from.
pub mod Laws
use ndk.Base.{
  ℕ, ◌+◌, ◌%◌, ◌^◌, Bool, true, false, ◌&&◌, Option, none, some, List, [], ◌∷◌, Bytes, codes, ◌==◌,
  if◌then◌else◌,
}
use ndk.Base.CString.{at_least, strtol}
use ndk.Base.Checked.{Checked, ok, ◌>>=◌, fueled}
use ndk.CpuFeatures.CpuInfo.{extract_cpuinfo_field, has_list_item}
use ndk.CpuFeatures.Flags.Hwcap
use ndk.CpuFeatures.Flags.{or_if}

-- `AT_HWCAP` and `AT_HWCAP2`
abbrev pub at_hwcap : ℕ
at_hwcap = 16

abbrev pub at_hwcap2 : ℕ
at_hwcap2 = 26

-- The C library as `dlopen` and `dlsym` find it: not at all, or without or with `getauxval`.
pub data Libc : Type 0 where
  no_libc no_getauxval : Libc
  with_getauxval : (ℕ → ℕ) → Libc

unfoldable pub get_elf_hwcap_from_getauxval : Libc → ℕ → ℕ
get_elf_hwcap_from_getauxval no_libc hwcap_type = 0
get_elf_hwcap_from_getauxval no_getauxval hwcap_type = 0
get_elf_hwcap_from_getauxval (with_getauxval func) hwcap_type = func hwcap_type % 2 ^ 32

-- What one `read` of an entry of /proc/self/auxv gives; a list that ends gives 0 bytes. The kernel
-- hands out whole entries.
pub data AuxRead : Type 0 where
  failed : AuxRead
  entry : ℕ → ℕ → AuxRead

unfoldable pub auxv_loop : List AuxRead → ℕ
auxv_loop [] = 0
auxv_loop (failed ∷ fd) = 0
auxv_loop (entry tag value ∷ fd) =
    if tag == 0 && value == 0 then 0 else if tag == at_hwcap then value else auxv_loop fd

-- `none` is a file that cannot be opened.
unfoldable pub get_elf_hwcap_from_proc_self_auxv : Option (List AuxRead) → ℕ
get_elf_hwcap_from_proc_self_auxv none = 0
get_elf_hwcap_from_proc_self_auxv (some fd) = auxv_loop fd

abbrev pub has_item : Bytes → Bytes → Checked Bool
has_item list item = fueled (has_list_item list item)

-- The words of the `Features` line.
unfoldable pub hwcaps_of_features : Option Bytes → Checked ℕ
hwcaps_of_features none = ok 0
hwcaps_of_features (some list) = do
  vfp ← has_item list (codes "vfp")
  vfpv3 ← has_item list (codes "vfpv3")
  vfpv3d16 ← has_item list (codes "vfpv3d16")
  vfpv4 ← has_item list (codes "vfpv4")
  neon ← has_item list (codes "neon")
  idiva ← has_item list (codes "idiva")
  idivt ← has_item list (codes "idivt")
  idiv ← has_item list (codes "idiv")
  iwmmxt ← has_item list (codes "iwmmxt")
  let h1 = or_if vfp Hwcap.vfp 0
  let h2 = or_if vfpv3 Hwcap.vfpv3 h1
  let h3 = or_if vfpv3d16 Hwcap.vfpv3d16 h2
  let h4 = or_if vfpv4 Hwcap.vfpv4 h3
  let h5 = or_if neon Hwcap.neon h4
  let h6 = or_if idiva Hwcap.idiva h5
  let h7 = or_if idivt Hwcap.idivt h6
  let h8 = or_if idiv (Hwcap.idiva + Hwcap.idivt) h7
  ok (or_if iwmmxt Hwcap.iwmmxt h8)

-- `architecture >= 8L`
abbrev pub is_armv8 : Option Bytes → Bool
is_armv8 none = false
is_armv8 (some arch) = at_least 8 (strtol arch).value

unfoldable pub get_elf_hwcap_from_proc_cpuinfo : (ℕ → Bool) → Bytes → Checked ℕ
get_elf_hwcap_from_proc_cpuinfo alloc cpuinfo = do
  cpu_arch ← extract_cpuinfo_field alloc cpuinfo b'C' (codes "PU architecture")
  elim (is_armv8 cpu_arch) [
    | true ↦ ok Hwcap.set_for_armv8
    | false ↦ extract_cpuinfo_field alloc cpuinfo b'F' (codes "eatures") >>= hwcaps_of_features
  ]
