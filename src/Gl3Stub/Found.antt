-- ===== src/Gl3Stub/Found.antt =====
-- What gl3stubInit of gl3stub.c finds.
use ndk.Base.{
  ℕ, Bool, true, false, ◌||◌, or-true, List, [], ◌∷◌, Bytes, equal, equal→eq, equal_refl, All,
  All-map, All-zip, Bool-cases, inl, inr, ◌==◌, if◌then◌else◌, ◌≡◌, ◌≢◌, ◌↔◌, refl, ◌∙◌, sym, arith,
}
use ndk.Gl3Stub.{find_procs, find_all, none_missing, gl3stub_init}

-- A name stands in a list.
abbrev pub named : Bytes → List Bytes → Bool
named name [] = false
named name (s ∷ names) = equal s name || named name names

find_all-named :
    (get_proc_address : Bytes → ℕ) (names : List Bytes) (procs : Bytes → ℕ) (name : Bytes)
    → find_all get_proc_address names procs name
      ≡ (if named name names then get_proc_address name else procs name)
unfolding find_all
find_all-named get_proc_address [] procs name = refl
find_all-named get_proc_address (s ∷ names) procs name =
    find_all-named get_proc_address names
      (λ other. if equal s other then get_proc_address s else procs other) name
    ∙ elim (Bool-cases (equal s name)) [
      | inl same ↦
          rw (same, equal→eq s name same) (either (named name names) (get_proc_address name))
      | inr other ↦ rw other
    ]
  where
    either : (b : Bool) (n : ℕ) → (if b then n else n) ≡ n
    either true n = refl
    either false n = refl

none_missing_iff :
    (procs : Bytes → ℕ) (names : List Bytes)
    → (none_missing procs names ≡ true) ↔ All (λ s. procs s ≢ 0) names
unfolding none_missing
none_missing_iff procs [] = (λ e. tt, λ all. refl)
none_missing_iff procs (s ∷ names) =
    let (all_of, of_all) = none_missing_iff procs names in
    elim (Bool-cases (procs s == 0)) [
      | inl missing ↦ rw missing (λ e. cc, λ all. absurd (all.0 (ground arith)))
      | inr there ↦ rw there (λ e. ((λ z. ground arith), all_of e), λ all. of_all all.1)
    ]

All-named : (names : List Bytes) → All (λ s. named s names ≡ true) names
All-named [] = tt
All-named (s ∷ names) =
    (rw (equal_refl s), All-map _ _ (λ name h. rw (h, or-true)) names (All-named names))

-- The variables that were looked up are all set exactly when all functions were found.
find_all_iff :
    (get_proc_address procs : Bytes → ℕ) (names : List Bytes)
    → (none_missing (find_all get_proc_address names procs) names ≡ true)
      ↔ All (λ s. get_proc_address s ≢ 0) names
find_all_iff get_proc_address procs names =
    let found = find_all get_proc_address names procs in
    let same : All (λ s. found s ≡ get_proc_address s) names =
      All-map _ _ (λ s h. find_all-named get_proc_address names procs s ∙ rw h) names
        (All-named names) in
    let (all_of, of_all) = none_missing_iff found names in
    (
      λ e. All-map _ _ (λ s h z. h.1 (h.0 ∙ z)) names (All-zip _ _ names same (all_of e)),
      λ all. of_all (All-map _ _ (λ s h z. h.1 (sym h.0 ∙ z)) names (All-zip _ _ names same all)),
    )

-- gl3stubInit returns GL_TRUE exactly when eglGetProcAddress has an address for each of the 104
-- functions; and whatever it returns, the variable of each of them holds what eglGetProcAddress
-- gave, and no other variable is changed.
pub gl3stub_init-found :
    (get_proc_address procs : Bytes → ℕ)
    → (((gl3stub_init get_proc_address procs).0 ≡ true)
        ↔ All (λ s. get_proc_address s ≢ 0) find_procs)
      × ((name : Bytes)
          → (gl3stub_init get_proc_address procs).1 name
            ≡ (if named name find_procs then get_proc_address name else procs name))
unfolding gl3stub_init
gl3stub_init-found get_proc_address procs = (
  find_all_iff get_proc_address procs find_procs,
  find_all-named get_proc_address find_procs procs,
)
