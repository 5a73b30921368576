-- ===== src/CpuFeatures/Api/Frozen.antt =====
-- The first call of the public functions of cpu-features.c decides what all later ones return.
pub mod Initialised
use ndk.Base.{
  ℕ, ◌≤◌, ◌^◌, ◌≡◌, refl, ap, true, Option, none, some, List, [], ◌∷◌, Bytes, inl, inr, if-cases,
  ltb, arith,
}
use mathlib.Core.Path.{subst}
use ndk.Base.Checked.{Checked, ok, ◌>>=◌, fueled, >>=-eq-ok, ok-injective}
use ndk.CpuFeatures.Files.{get_file_size, read_file}
use ndk.CpuFeatures.Arm.{arm_init}
use ndk.CpuFeatures.Targets.{Target, arm, x86, mips64, mips, arm64, x86_64, unknown, cpu_family}
use ndk.CpuFeatures.Init.{
  System, Globals, get_cpu_count, init_target, init_with, init_sized, android_cpu_init,
}
use ndk.CpuFeatures.Api.{
  fresh, pthread_once, android_get_cpu_family, android_get_cpu_features, android_get_cpu_count,
  android_get_cpu_id_arm, android_cpu_init_dummy, positive_count, android_set_cpu,
  android_set_cpu_arm,
}
use ndk.CpuFeatures.Api.Frozen.Initialised.{IsInitialised, android_cpu_init-IsInitialised}

-- A call of a public function.
pub data Call : Type 0 where
  get_family get_features get_count get_id_arm : Call
  set_cpu : ℕ → ℕ → Call
  set_cpu_arm : ℕ → ℕ → ℕ → Call

abbrev pub perform : System → Call → Globals → Checked (ℕ × Globals)
perform sys get_family g = android_get_cpu_family sys g
perform sys get_features g = android_get_cpu_features sys g
perform sys get_count g = android_get_cpu_count sys g
perform sys get_id_arm g = android_get_cpu_id_arm sys g
perform sys (set_cpu count features) g = android_set_cpu sys count features g
perform sys (set_cpu_arm count features cpu_id) g = android_set_cpu_arm sys count features cpu_id g

-- What a call returns when it finds the values there.
abbrev pub answer : Globals → Call → ℕ
answer g get_family = g.family
answer g get_features = g.features
answer g get_count = g.count
answer g get_id_arm = g.cpu_id
answer g (set_cpu _ _) = 0
answer g (set_cpu_arm _ _ _) = 0

abbrev pub answers : Globals → List Call → List ℕ
answers g [] = []
answers g (c ∷ cs) = answer g c ∷ answers g cs

-- The answers to calls in a row.
abbrev pub performs : System → List Call → Globals → Checked (List ℕ × Globals)
performs sys [] g = ok ([], g)
performs sys (c ∷ cs) g = do
  (r, g') ← perform sys c g
  (rs, g'') ← performs sys cs g'
  ok (r ∷ rs, g'')

pub record IsFrozen (sys : System) (g : Globals) : Type 0 where
  pub once : g.once ≡ true
  pub set : IsInitialised sys g

pthread_once-once :
    (init : Globals → Checked Globals) (g : Globals) → g.once ≡ true → pthread_once init g ≡ ok g
unfolding pthread_once
pthread_once-once init g h = rw h refl

perform-IsFrozen :
    (sys : System) (c : Call) (g : Globals) → IsFrozen sys g → perform sys c g ≡ ok (answer g c, g)
unfolding android_get_cpu_family android_get_cpu_features android_get_cpu_count
    android_get_cpu_id_arm android_set_cpu android_set_cpu_arm
perform-IsFrozen sys get_family g f = rw (pthread_once-once (android_cpu_init sys) g f.once) refl
perform-IsFrozen sys get_features g f = rw (pthread_once-once (android_cpu_init sys) g f.once) refl
perform-IsFrozen sys get_count g f = rw (pthread_once-once (android_cpu_init sys) g f.once) refl
perform-IsFrozen sys get_id_arm g f = rw (pthread_once-once (android_cpu_init sys) g f.once) refl
perform-IsFrozen sys (set_cpu count features) g f = rw f.set.inited refl
perform-IsFrozen sys (set_cpu_arm count features cpu_id) g f = rw f.set.inited refl

performs-IsFrozen :
    (sys : System) (cs : List Call) (g : Globals)
    → IsFrozen sys g
    → performs sys cs g ≡ ok (answers g cs, g)
performs-IsFrozen sys [] g f = refl
performs-IsFrozen sys (c ∷ cs) g f =
    rw (perform-IsFrozen sys c g f) (rw (performs-IsFrozen sys cs g f) refl)

pthread_once-init :
    (sys : System) {g : Globals} → pthread_once (android_cpu_init sys) fresh ≡ ok g → IsFrozen sys g
unfolding pthread_once
pthread_once-init sys h =
    let (g, e, r) = >>=-eq-ok (android_cpu_init sys fresh) _ h in
    let s = android_cpu_init-IsInitialised sys fresh e in
    subst (IsFrozen sys) (ok-injective r) (record {
      once = refl;
      set = record { inited = s.inited; family = s.family; positive = s.positive };
    })

with_value : (Globals → ℕ) → Globals → Checked (ℕ × Globals)
with_value value g = ok (value g, g)

-- The result of a first call, with the values that it leaves.
first-IsFrozen :
    (sys : System) (value : Globals → ℕ) {r : ℕ} {g : Globals}
    → (pthread_once (android_cpu_init sys) fresh >>= with_value value) ≡ ok (r, g)
    → IsFrozen sys g
unfolding with_value
first-IsFrozen sys value h =
    let (g', e, r) = >>=-eq-ok (pthread_once (android_cpu_init sys) fresh) _ h in
    subst (IsFrozen sys) (ap (λ p. p.1) (ok-injective r)) (pthread_once-init sys e)

positive_count-positive : (n : ℕ) → 1 ≤ positive_count n
positive_count-positive n = ground arith

perform-first :
    (sys : System) (c : Call) {r : ℕ} {g : Globals}
    → perform sys c fresh ≡ ok (r, g)
    → IsFrozen sys g
unfolding android_get_cpu_family android_get_cpu_features android_get_cpu_count
    android_get_cpu_id_arm android_set_cpu android_set_cpu_arm android_cpu_init_dummy pthread_once
    with_value
perform-first sys get_family h = first-IsFrozen sys (λ g. g.family) h
perform-first sys get_features h = first-IsFrozen sys (λ g. g.features) h
perform-first sys get_count h = first-IsFrozen sys (λ g. g.count) h
perform-first sys get_id_arm h = first-IsFrozen sys (λ g. g.cpu_id) h
perform-first sys (set_cpu count features) h =
    subst (IsFrozen sys) (ap (λ p. p.1) (ok-injective h)) (record {
      once = refl;
      set = record { inited = refl; family = refl; positive = positive_count-positive count };
    })
perform-first sys (set_cpu_arm count features cpu_id) h =
    subst (IsFrozen sys) (ap (λ p. p.1) (ok-injective h)) (record {
      once = refl;
      set = record { inited = refl; family = refl; positive = positive_count-positive count };
    })

-- The first call of a public function decides: when it returns, it leaves values that are set, and
-- then every sequence of calls returns, with the answers that those values give, and changes
-- none of them.
pub performs-Frozen :
    (sys : System) (c : Call) (cs : List Call) (r : ℕ) (g : Globals)
    → perform sys c fresh ≡ ok (r, g)
    → IsFrozen sys g × (performs sys cs g ≡ ok (answers g cs, g))
performs-Frozen sys c cs r g h = let f = perform-first sys c h in (f, performs-IsFrozen sys cs g f)

-- After a first call of `android_set_cpu_arm`, the getters return what was set: the target's
-- family, the features and the ID as given, and the count, with 1 for one that is not positive.
android_set_cpu_arm-getters :
    (sys : System) (count features cpu_id : ℕ)
    → (g : Globals) × (android_set_cpu_arm sys count features cpu_id fresh ≡ ok (1, g))
      × (performs sys (get_family ∷ get_features ∷ get_count ∷ get_id_arm ∷ []) g
          ≡ ok (cpu_family sys.target ∷ features ∷ positive_count count ∷ cpu_id ∷ [], g))
unfolding android_set_cpu_arm android_set_cpu android_cpu_init_dummy pthread_once
android_set_cpu_arm-getters sys count features cpu_id =
    let h : android_set_cpu_arm sys count features cpu_id fresh ≡ ok (1, _) = refl in
    (
      _,
      h,
      (performs-Frozen sys (set_cpu_arm count features cpu_id)
          (get_family ∷ get_features ∷ get_count ∷ get_id_arm ∷ []) 1 _ h).1,
    )
