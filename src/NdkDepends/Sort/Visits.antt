-- ===== src/NdkDepends/Sort/Visits.antt =====
-- How often the libraries of a graph need a library, for the sort of ndk-depends.cc.
use ndk.Base.{
  ℕ, ◌+◌, ◌<◌, Bool, true, false, not, ◌&&◌, List, [], ◌∷◌, Bytes, All, All-map, equal, ◌≢◌,
  equal_refl, Bool-cases, or-true, inl, inr, ◌≡◌, refl, ap, ◌∙◌, if◌then◌else◌, arith,
}
use ndk.NdkDepends.Dictionary.{contains, lookup}
use ndk.NdkDepends.Dictionary.Laws.{equal_cases, equal-false}
use ndk.NdkDepends.Graph.{LibNode, DependencyGraph, node_at}

-- The places of a name in a list.
unfoldable pub occurrences : Bytes → List Bytes → ℕ
occurrences k [] = 0
occurrences k (name ∷ names) = (if equal name k then 1 else 0) + occurrences k names

-- How often the libraries for which `there` holds need `k`.
unfoldable pub visits : (Bytes → Bool) → DependencyGraph → Bytes → ℕ
visits there [] k = 0
visits there ((j, node) ∷ deps) k =
    (if there j then occurrences k node.needed_libs else 0) + visits there deps k

-- Every library that a library of the graph needs satisfies a predicate.
abbrev pub AllNeeded : (Bytes → Bytes → Type 0) → DependencyGraph → Type 0
AllNeeded P [] = Unit
AllNeeded P ((k, node) ∷ deps) = All (P k) node.needed_libs × AllNeeded P deps

-- A key stands once.
abbrev pub Distinct : DependencyGraph → Type 0
Distinct [] = Unit
Distinct ((k, node) ∷ deps) = (contains k deps ≡ false) × Distinct deps

pub All-occurs :
    (P : Bytes → Type 0) (k : Bytes) (names : List Bytes)
    → All P names
    → 0 < occurrences k names
    → P k
unfolding occurrences
All-occurs P k [] all h = absurd (omega arith)
All-occurs P k (name ∷ names) all h = elim (equal_cases name k) [
  | inl (same, e) ↦ rw (← e) (all.0)
  | inr other ↦ let further = rw other at h in All-occurs P k names all.1 (omega arith)
]

pub AllNeeded-map :
    (P Q : Bytes → Bytes → Type 0)
    → ((k d : Bytes) → P k d → Q k d)
    → (deps : DependencyGraph) → AllNeeded P deps
    → AllNeeded Q deps
AllNeeded-map P Q f [] all = tt
AllNeeded-map P Q f ((k, node) ∷ deps) all =
    (All-map (P k) (Q k) (f k) node.needed_libs all.0, AllNeeded-map P Q f deps all.1)

-- Each name of a list has a place in it.
pub All-occurrences : (names : List Bytes) → All (λ d. 0 < occurrences d names) names
unfolding occurrences
All-occurrences [] = tt
All-occurrences (name ∷ names) = (
  rw (equal_refl name) (omega arith),
  All-map _ _ (λ d h. omega arith) names (All-occurrences names),
)

pub node_at-cons :
    (k j : Bytes) (node : LibNode) (deps : DependencyGraph)
    → node_at ((j, node) ∷ deps) k ≡ (if equal j k then node else node_at deps k)
unfolding node_at lookup
node_at-cons k j node deps = elim (Bool-cases (equal j k)) [
  | inl same ↦ rw (same, lookup)
  | inr other ↦ rw (other, lookup)
]

pub AllNeeded-at :
    (P : Bytes → Bytes → Type 0) (k : Bytes) (deps : DependencyGraph)
    → AllNeeded P deps
    → All (P k) (node_at deps k).needed_libs
unfolding node_at lookup
AllNeeded-at P k [] all = tt
AllNeeded-at P k ((j, node) ∷ deps) all = elim (equal_cases j k) [
  | inl (same, e) ↦ rw (node_at-cons k j node deps, same) (rw e at (all.0))
  | inr other ↦ rw (node_at-cons k j node deps, other) (AllNeeded-at P k deps all.1)
]

-- No library that is there needs `k`.
pub visits-zero :
    (there : Bytes → Bool) (k : Bytes) (deps : DependencyGraph)
    → AllNeeded (λ j d. there j ≡ true → d ≢ k) deps
    → visits there deps k ≡ 0
unfolding visits
visits-zero there k [] all = refl
visits-zero there k ((j, node) ∷ deps) all =
    let rest = visits-zero there k deps all.1 in
    elim (Bool-cases (there j)) [
      | inr gone ↦ rw gone (omega arith)
      | inl here ↦
          let none_here : ¬ (0 < occurrences k node.needed_libs) = λ h.
            All-occurs (λ d. d ≢ k) k node.needed_libs
              (All-map _ _ (λ d f. f here) node.needed_libs all.0) h refl in
          rw here (omega arith)
    ]

-- Where both tests agree on a graph's keys the number is the same.
pub visits_same :
    (here there : Bytes → Bool) (k : Bytes) (deps : DependencyGraph)
    → ((j : Bytes) → contains j deps ≡ true → here j ≡ there j)
    → visits here deps k ≡ visits there deps k
unfolding visits contains
visits_same here there k [] agree = refl
visits_same here there k ((j, node) ∷ deps) agree =
    rw (
      agree j (rw (equal_refl j)),
      visits_same here there k deps (λ i h. agree i (rw (h, or-true))),
    )

-- One library less that is there: the number falls by what that library needs.
pub visits-drop :
    (here there : Bytes → Bool) (m k : Bytes) (deps : DependencyGraph)
    → Distinct deps
    → contains m deps ≡ true
    → there m ≡ true
    → ((j : Bytes) → here j ≡ (not (equal m j) && there j))
    → visits here deps k + occurrences k (node_at deps m).needed_libs ≡ visits there deps k
unfolding visits contains
visits-drop here there m k [] distinct known now drop = cc
visits-drop here there m k ((j, node) ∷ deps) distinct known now drop = elim (equal_cases j m) [
  | inl (same, e) ↦
      let gone : here j ≡ false = drop j ∙ rw (e, equal_refl m) in
      let agree = visits_same here there k deps λ i h. drop i ∙ differ i (rw e at (distinct.0)) h in
      rw (node_at-cons m j node deps, same, gone, agree, e, now) (omega arith)
  | inr other ↦
      let flip : equal m j ≡ false = equal-false m j other in
      let kept : here j ≡ there j = drop j ∙ rw flip in
      let rest = visits-drop here there m k deps distinct.1 (rw other at known) now drop in
      rw (node_at-cons m j node deps, other, kept) (omega (arith, rest))
]
  where
    differ :
        (i : Bytes)
        → contains m deps ≡ false
        → contains i deps ≡ true
        → (not (equal m i) && there i) ≡ there i
    differ i new old = elim (equal_cases m i) [
      | inl (same, e) ↦ cc (ap (λ t. contains t deps) e)
      | inr apart ↦ rw apart
    ]
