-- ===== src/CpuFeatures/Api.antt =====
-- The public functions of cpu-features.c: initialisation happens once, by the first call.
pub mod Frozen
use ndk.Base.{ℕ, ◌^◌, Bool, true, false, ◌&&◌, ltb, ◌==◌, if◌then◌else◌}
use ndk.Base.Checked.{Checked, ok, ◌>>=◌}
use ndk.CpuFeatures.Targets.{cpu_family}
use ndk.CpuFeatures.Init.{System, Globals, android_cpu_init}

-- Before any call.
abbrev pub fresh : Globals
fresh = record { once = false; inited = false; family = 0; features = 0; count = 0; cpu_id = 0 }

-- `pthread_once(&g_once, init)`
unfoldable pub pthread_once : (Globals → Checked Globals) → Globals → Checked Globals
pthread_once init g = if g.once then ok g else (init g >>= λ g'. ok (record g' { once = true }))

unfoldable pub android_get_cpu_family : System → Globals → Checked (ℕ × Globals)
android_get_cpu_family sys g = do g' ← pthread_once (android_cpu_init sys) g; ok (g'.family, g')

unfoldable pub android_get_cpu_features : System → Globals → Checked (ℕ × Globals)
android_get_cpu_features sys g = do g' ← pthread_once (android_cpu_init sys) g; ok (g'.features, g')

unfoldable pub android_get_cpu_count : System → Globals → Checked (ℕ × Globals)
android_get_cpu_count sys g = do g' ← pthread_once (android_cpu_init sys) g; ok (g'.count, g')

unfoldable pub android_get_cpu_id_arm : System → Globals → Checked (ℕ × Globals)
android_get_cpu_id_arm sys g = do g' ← pthread_once (android_cpu_init sys) g; ok (g'.cpu_id, g')

unfoldable pub android_cpu_init_dummy : Globals → Checked Globals
android_cpu_init_dummy g = ok (record g { inited = true })

-- `cpu_count <= 0 ? 1 : cpu_count`, on the bit pattern of an `int`.
abbrev pub positive_count : ℕ → ℕ
positive_count cpu_count =
    if cpu_count == 0 then 1 else if ltb cpu_count (2 ^ 31) then cpu_count else 1

unfoldable pub android_set_cpu : System → ℕ → ℕ → Globals → Checked (ℕ × Globals)
unfolding android_cpu_init_dummy
android_set_cpu sys cpu_count cpu_features g =
    if g.inited
    then ok (0, g)
    else (pthread_once android_cpu_init_dummy (record g {
      family = cpu_family sys.target;
      count = positive_count cpu_count;
      features = cpu_features;
    })
        >>= λ g'. ok (1, g'))

unfoldable pub android_set_cpu_arm : System → ℕ → ℕ → ℕ → Globals → Checked (ℕ × Globals)
android_set_cpu_arm sys cpu_count cpu_features cpu_id g = do
  (done, g') ← android_set_cpu sys cpu_count cpu_features g
  ok (if done == 0 then (0, g') else (1, record g' { cpu_id = cpu_id }))
