-- ===== src/CpuFeatures/Api/Frozen/Initialised.antt =====
-- What `android_cpuInit` of cpu-features.c sets, whatever the device provides.
use ndk.Base.{
  ℕ, ◌≤◌, ◌^◌, ◌≡◌, refl, true, Option, none, some, Bytes, inl, inr, if-cases, ltb, arith,
}
use mathlib.Core.Path.{subst}
use ndk.Base.Checked.{ok, fueled, >>=-eq-ok, ok-injective}
use ndk.CpuFeatures.Files.{get_file_size, read_file}
use ndk.CpuFeatures.Arm.{arm_init}
use ndk.CpuFeatures.Targets.{Target, arm, x86, mips64, mips, arm64, x86_64, unknown, cpu_family}
use ndk.CpuFeatures.Init.{
  System, Globals, get_cpu_count, init_target, init_with, init_sized, android_cpu_init,
}

-- A family and a count that the initialisation has set.
pub record IsInitialised (sys : System) (g : Globals) : Type 0 where
  pub inited : g.inited ≡ true
  pub family : g.family ≡ cpu_family sys.target
  pub positive : 1 ≤ g.count

IsInitialised-features :
    (sys : System) (g : Globals) (features cpu_id : ℕ)
    → IsInitialised sys g
    → IsInitialised sys (record g { features = features; cpu_id = cpu_id })
IsInitialised-features sys g features cpu_id s = record {
  inited = s.inited;
  family = s.family;
  positive = s.positive;
}

init_target-IsInitialised :
    (t : Target) (sys : System) (cpuinfo : Bytes) (g : Globals) {g' : Globals}
    → IsInitialised sys g
    → init_target t sys cpuinfo g ≡ ok g'
    → IsInitialised sys g'
unfolding init_target
init_target-IsInitialised arm sys cpuinfo g s h =
    let (a, _, e) =
      >>=-eq-ok
        (arm_init sys.alloc sys.libc sys.auxv cpuinfo g.family
          (record { features = g.features; cpu_id = g.cpu_id }))
        _ h in
    subst (IsInitialised sys) (ok-injective e) (IsInitialised-features sys g a.features a.cpu_id s)
init_target-IsInitialised arm64 sys cpuinfo g s h =
    subst (IsInitialised sys) (ok-injective h) (IsInitialised-features sys g _ g.cpu_id s)
init_target-IsInitialised x86 sys cpuinfo g s h =
    subst (IsInitialised sys) (ok-injective h) (IsInitialised-features sys g _ g.cpu_id s)
init_target-IsInitialised x86_64 sys cpuinfo g s h =
    subst (IsInitialised sys) (ok-injective h) (IsInitialised-features sys g _ g.cpu_id s)
init_target-IsInitialised mips sys cpuinfo g s h =
    subst (IsInitialised sys) (ok-injective h) (IsInitialised-features sys g _ g.cpu_id s)
init_target-IsInitialised mips64 sys cpuinfo g s h =
    subst (IsInitialised sys) (ok-injective h) (IsInitialised-features sys g _ g.cpu_id s)
init_target-IsInitialised unknown sys cpuinfo g s h = subst (IsInitialised sys) (ok-injective h) s

init_with-IsInitialised :
    (sys : System) (cpuinfo : Option Bytes) (g : Globals) {g' : Globals}
    → IsInitialised sys g
    → init_with sys cpuinfo g ≡ ok g'
    → IsInitialised sys g'
unfolding init_with
init_with-IsInitialised sys none g s h = subst (IsInitialised sys) (ok-injective h) s
init_with-IsInitialised sys (some cpuinfo) g s h =
    let (cpus, _, e) = >>=-eq-ok (get_cpu_count sys) _ h in
    init_target-IsInitialised sys.target sys cpuinfo _
      (record { inited = s.inited; family = s.family; positive = ground arith }) e

init_sized-IsInitialised :
    (sys : System) (cpuinfo_len : Option ℕ) (g : Globals) {g' : Globals}
    → IsInitialised sys g
    → init_sized sys cpuinfo_len g ≡ ok g'
    → IsInitialised sys g'
unfolding init_sized
init_sized-IsInitialised sys none g s h = subst (IsInitialised sys) (ok-injective h) s
init_sized-IsInitialised sys (some cpuinfo_len) g s h =
    elim (if-cases (ltb cpuinfo_len (2 ^ 31)) _ _ h) [
      | inr negative ↦ subst (IsInitialised sys) (ok-injective negative) s
      | inl fits ↦ elim (if-cases (sys.alloc cpuinfo_len) _ _ fits) [
        | inr no_memory ↦ subst (IsInitialised sys) (ok-injective no_memory) s
        | inl allocated ↦
            let (cpuinfo, _, e) =
              >>=-eq-ok (fueled (read_file sys.cpuinfo_read cpuinfo_len)) _ allocated in
            init_with-IsInitialised sys cpuinfo g s e
      ]
    ]

pub android_cpu_init-IsInitialised :
    (sys : System) (g : Globals) {g' : Globals}
    → android_cpu_init sys g ≡ ok g'
    → IsInitialised sys g'
unfolding android_cpu_init
android_cpu_init-IsInitialised sys g h =
    let (cpuinfo_len, _, e) = >>=-eq-ok (fueled (get_file_size sys.cpuinfo_sized)) _ h in
    init_sized-IsInitialised sys cpuinfo_len _
      (record { inited = refl; family = refl; positive = omega arith }) e
