-- ===== src/NdkDepends/Graph/Promise.antt =====
-- What BuildDependencyGraph of ndk-depends.cc promises, and what its rounds do to maps and counts.
use ndk.Base.{
  ℕ, ◌+◌, ◌≤◌, true, false, ◌||◌, List, [], ◌∷◌, ◌++◌, Bytes, All, All-map, equal, equal_refl,
  equal→eq, Bool-cases, or-true, inl, inr, ◌≡◌, ◌⊎◌, refl, ◌∙◌, if◌then◌else◌, arith, length,
}
use ndk.NdkDepends.Paths.{path_basename}
use ndk.NdkDepends.Search.{System, listed}
use ndk.NdkDepends.Dictionary.{less, contains, insert}
use ndk.NdkDepends.Dictionary.Laws.{equal_cases, contains-insert}
use ndk.NdkDepends.Graph.{LibNode, DependencyGraph}
use ndk.NdkDepends.Graph.Visit.{node_of_file, node_of}
use ndk.NdkDepends.Sort.Visits.{AllNeeded, Distinct}

pub Distinct-insert :
    (j : Bytes) (node : LibNode) (deps : DependencyGraph)
    → contains j deps ≡ false
    → Distinct deps
    → Distinct (insert j node deps)
unfolding insert contains
Distinct-insert j node [] new distinct = (refl, tt)
Distinct-insert j node ((k, w) ∷ deps) new distinct = elim (Bool-cases (less j k)) [
  | inl e ↦ rw e (new, distinct)
  | inr e ↦ rw e (
    contains-insert k j node deps ∙ ground (arith, distinct.0, equal→eq j k, equal_refl j),
    Distinct-insert j node deps (ground arith) distinct.1,
  )
]

pub AllNeeded-insert :
    (P : Bytes → Bytes → Type 0) (j : Bytes) (node : LibNode) (deps : DependencyGraph)
    → All (P j) node.needed_libs
    → AllNeeded P deps
    → AllNeeded P (insert j node deps)
unfolding insert
AllNeeded-insert P j node [] needed all = (needed, tt)
AllNeeded-insert P j node ((k, w) ∷ deps) needed all = elim (Bool-cases (less j k)) [
  | inl e ↦ rw e (needed, all)
  | inr e ↦ rw e (all.0, AllNeeded-insert P j node deps needed all.1)
]

pub listed-append :
    (d : Bytes) (xs ys : List Bytes) → listed d (xs ++ ys) ≡ (listed d xs || listed d ys)
listed-append d [] ys = refl
listed-append d (x ∷ xs) ys = ground (arith, listed-append d xs ys)

pub All-listed : (names : List Bytes) → All (λ d. listed d names ≡ true) names
All-listed [] = tt
All-listed (name ∷ names) =
    (rw (equal_refl name), All-map _ _ (λ d h. rw (h, or-true)) names (All-listed names))

pub All-append {ℓ κ} :
    {A : Type ℓ} (P : A → Type κ) (xs ys : List A) → All P xs → All P ys → All P (xs ++ ys)
All-append P [] ys p q = q
All-append P (x ∷ xs) ys p q = (p.0, All-append P xs ys p.1 q)

-- What the function promises: the root is in the graph, and with a library all that it needs; a
-- library stands in it once; the root's node is that of its file, and any other one is what the
-- search path gives.
pub record IsComplete (system : System) (lib_search_path : List Bytes) (root_libpath : Bytes)
    (deps : DependencyGraph) : Type 0 where
  pub rooted : contains (path_basename root_libpath) deps ≡ true
  pub distinct : Distinct deps
  pub closed : AllNeeded (λ _ d. contains d deps ≡ true) deps
  pub origin :
      All
        (λ item.
          ((item.0 ≡ path_basename root_libpath) × (item.1 ≡ node_of_file system root_libpath))
          ⊎ (item.1 ≡ node_of system lib_search_path item.0))
        deps

-- A finite set of names that holds what the root needs, and what each of the names needs.
pub record Covers (system : System) (lib_search_path : List Bytes) (root_libpath : Bytes)
    (names : List Bytes) : Type 0 where
  pub root_needs : All (λ d. listed d names ≡ true) (node_of_file system root_libpath).needed_libs
  pub needs :
      (name : Bytes)
      → listed name names ≡ true
      → All (λ d. listed d names ≡ true) (node_of system lib_search_path name).needed_libs

-- The places in the queue that the names which are not in the graph will take.
abbrev pub places : (Bytes → List Bytes) → DependencyGraph → List Bytes → ℕ
places needed deps [] = 0
places needed deps (name ∷ names) =
    (if contains name deps then 0 else length (needed name)) + places needed deps names

module _ (needed : Bytes → List Bytes) (libname : Bytes) (deps next : DependencyGraph)
    (grown : (k : Bytes) → contains k next ≡ (equal libname k || contains k deps)) where
  pub places-le : (names : List Bytes) → places needed next names ≤ places needed deps names
  places-le [] = omega arith
  places-le (name ∷ names) = ground (arith, grown name, places-le names)

  pub places-drop :
      (names : List Bytes)
      → contains libname deps ≡ false
      → listed libname names ≡ true
      → places needed next names + length (needed libname) ≤ places needed deps names
  places-drop [] new h = cc
  places-drop (name ∷ names) new h = elim (equal_cases libname name) [
    | inl (same, e) ↦
        rw (← e, new, grown libname, equal_refl libname) (omega (arith, places-le names))
    | inr other ↦
        let rest = places-drop names new (rw other at h) in
        rw (grown name, other) (omega (arith, rest))
  ]
