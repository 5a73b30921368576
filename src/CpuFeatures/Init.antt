-- ===== src/CpuFeatures/Init.antt =====
-- `get_cpu_count` and `android_cpu_init` of cpu-features.c.
pub mod Count
use ndk.Base.{ℕ, ◌^◌, Bool, true, false, Option, none, some, List, Bytes, ltb, ◌==◌, if◌then◌else◌}
use ndk.Base.Checked.{Checked, ok, ◌>>=◌, fueled}
use ndk.CpuFeatures.Files.{File, get_file_size, read_file}
use ndk.CpuFeatures.CpuList.{CpuList, cpulist_init, cpulist_and, cpulist_count, cpulist_parse}
use ndk.CpuFeatures.Hwcap.{Libc, AuxRead, at_hwcap, get_elf_hwcap_from_getauxval}
use ndk.CpuFeatures.Arm.{ArmState, arm_init}
use ndk.CpuFeatures.Targets.{
  Target, arm, x86, mips64, mips, arm64, x86_64, unknown, cpu_family, Regs, arm64_features,
  x86_features, mips_features,
}

-- What the system provides: the sizes that `malloc` can serve, a file for each `open` in order,
-- the C library, and the processor.
pub record System : Type 0 where
  pub target : Target
  pub alloc : ℕ → Bool
  pub cpuinfo_sized : Option File
  pub cpuinfo_read : Option File
  pub cpus_present : Option File
  pub cpus_possible : Option File
  pub libc : Libc
  pub auxv : Option (List AuxRead)
  pub x86_cpuid : ℕ → Regs

-- The static variables `g_*`.
pub record Globals : Type 0 where
  pub once : Bool
  pub inited : Bool
  pub family : ℕ
  pub features : ℕ
  pub count : ℕ
  pub cpu_id : ℕ

abbrev pub list_of_file : Option Bytes → Checked CpuList
list_of_file none = ok cpulist_init
list_of_file (some file) = cpulist_parse cpulist_init file

unfoldable pub cpulist_read_from : Option File → Checked CpuList
cpulist_read_from filename = do file ← fueled (read_file filename 64); list_of_file file

unfoldable pub get_cpu_count : System → Checked ℕ
get_cpu_count sys = do
  present ← cpulist_read_from sys.cpus_present
  possible ← cpulist_read_from sys.cpus_possible
  ok (cpulist_count (cpulist_and present possible))

-- The part that depends on the target.
unfoldable pub init_target : Target → System → Bytes → Globals → Checked Globals
init_target arm sys cpuinfo g = do
  s ←
      arm_init sys.alloc sys.libc sys.auxv cpuinfo g.family
        (record { features = g.features; cpu_id = g.cpu_id })
  ok (record g { features = s.features; cpu_id = s.cpu_id })
init_target arm64 sys cpuinfo g = ok (record g {
  features = arm64_features (get_elf_hwcap_from_getauxval sys.libc at_hwcap) g.features;
})
init_target x86 sys cpuinfo g = ok (record g { features = x86_features sys.x86_cpuid g.features })
init_target x86_64 sys cpuinfo g =
    ok (record g { features = x86_features sys.x86_cpuid g.features })
init_target mips sys cpuinfo g = ok (record g {
  features = mips_features (get_elf_hwcap_from_getauxval sys.libc at_hwcap) g.features;
})
init_target mips64 sys cpuinfo g = ok (record g {
  features = mips_features (get_elf_hwcap_from_getauxval sys.libc at_hwcap) g.features;
})
init_target unknown sys cpuinfo g = ok g

-- With the content of /proc/cpuinfo in the buffer.
unfoldable pub init_with : System → Option Bytes → Globals → Checked Globals
init_with sys none g = ok g
init_with sys (some cpuinfo) g = do
  cpus ← get_cpu_count sys
  init_target sys.target sys cpuinfo (record g { count = if cpus == 0 then 1 else cpus })

-- With `cpuinfo_len`, the bit pattern of an `int`.
unfoldable pub init_sized : System → Option ℕ → Globals → Checked Globals
init_sized sys none g = ok g
init_sized sys (some cpuinfo_len) g =
    let rest =
      fueled (read_file sys.cpuinfo_read cpuinfo_len) >>= λ cpuinfo. init_with sys cpuinfo g in
    if ltb cpuinfo_len (2 ^ 31) then (if sys.alloc cpuinfo_len then rest else ok g) else ok g

unfoldable pub android_cpu_init : System → Globals → Checked Globals
android_cpu_init sys g = do
  let start = record g { family = cpu_family sys.target; features = 0; count = 1; inited = true }
  cpuinfo_len ← fueled (get_file_size sys.cpuinfo_sized)
  init_sized sys cpuinfo_len start
