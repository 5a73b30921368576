-- ===== src/NdkDepends/Sort/Counts.antt =====
-- The numbers of visitors that GetTopologicalSortedLibraries of ndk-depends.cc computes first.
use ndk.Base.{
  ℕ, ◌+◌, Bool, true, false, ◌||◌, List, [], ◌∷◌, Bytes, All, equal, equal_refl, Bool-cases,
  or-true, or-false_right, inl, inr, ◌≡◌, refl, ap, sym, ◌∙◌, if◌then◌else◌, arith,
}
use ndk.Base.CString.{ℤ, pos}
use ndk.NdkDepends.Dictionary.{contains, insert, update, modify}
use ndk.NdkDepends.Dictionary.Laws.{
  equal_cases, equal-false, contains-modify, All-insert, All-update,
}
use ndk.NdkDepends.Graph.{DependencyGraph}
use ndk.NdkDepends.Sort.{VisitorMap, plus_one, count_needed, count_visitors}
use ndk.NdkDepends.Sort.Visits.{occurrences, visits, AllNeeded}

-- The item of each library holds its number.
abbrev pub Holds : (Bytes → ℕ) → VisitorMap → Type 0
Holds t = All (λ item. item.1 ≡ pos (t item.0))

pub Holds-eq :
    (t u : Bytes → ℕ) (visitors : VisitorMap)
    → ((k : Bytes) → contains k visitors ≡ true → t k ≡ u k)
    → Holds t visitors
    → Holds u visitors
unfolding contains
Holds-eq t u [] same held = tt
Holds-eq t u ((j, n) ∷ visitors) same held = (
  held.0 ∙ ap pos (same j (rw (equal_refl j))),
  Holds-eq t u visitors (λ k h. same k (rw (h, or-true))) held.1,
)

-- The numbers `t` are those of the map, and 0 for what is not in it.
pub record Counted (t : Bytes → ℕ) (visitors : VisitorMap) : Type 0 where
  pub held : Holds t visitors
  pub absent : (k : Bytes) → contains k visitors ≡ false → t k ≡ 0

-- One more for `j`.
abbrev one_at : Bytes → Bytes → ℕ
one_at j k = if equal j k then 1 else 0

abbrev gained : (Bytes → ℕ) → Bytes → Bytes → ℕ
gained t j k = t k + one_at j k

Holds-insert :
    (t : Bytes → ℕ) (j : Bytes) (visitors : VisitorMap)
    → t j ≡ 0
    → Holds t visitors
    → contains j visitors ≡ false
    → Holds (gained t j) (insert j (pos 1) visitors)
Holds-insert t j visitors none_yet held new =
    All-insert (λ item. item.1 ≡ pos (gained t j item.0)) j (pos 1) visitors
      (ap pos (rw (none_yet, equal_refl j) (omega arith)))
      (Holds-eq t (gained t j) visitors
        (λ k h. elim (equal_cases j k) [
          | inl (same, e) ↦ cc (h, new, ap (λ s. contains s visitors) e)
          | inr other ↦ rw other (omega arith)
        ])
        held)

Holds-gain :
    (t : Bytes → ℕ) (j : Bytes) (visitors : VisitorMap)
    → Holds t visitors
    → Holds (gained t j) (update j plus_one visitors)
Holds-gain t j visitors held =
    All-update (λ item. item.1 ≡ pos (t item.0)) (λ item. item.1 ≡ pos (gained t j item.0)) j
      plus_one visitors (λ n e. rw (e, equal_refl j) (ap pos (omega arith)))
      (λ k n apart e. e ∙ ap pos (rw (equal-false j k apart) (omega arith))) held

gained-absent :
    (t : Bytes → ℕ) (j k : Bytes) {there : Bool}
    → (equal j k || there) ≡ false
    → (there ≡ false → t k ≡ 0)
    → gained t j k ≡ 0
gained-absent t j k h zero_at = ground arith

Counted-gain :
    (t : Bytes → ℕ) (j : Bytes) (visitors : VisitorMap)
    → Counted t visitors
    → Counted (gained t j) (modify j (pos 0) plus_one visitors)
unfolding modify
Counted-gain t j visitors c = record {
  held = elim (Bool-cases (contains j visitors)) [
    | inl old ↦ rw old (Holds-gain t j visitors c.held)
    | inr new ↦ rw new (Holds-insert t j visitors (c.absent j new) c.held new)
  ];
  absent = λ k h.
      gained-absent t j k (sym (contains-modify k j (pos 0) plus_one visitors) ∙ h) (c.absent k);
}

touch :
    (t : Bytes → ℕ) (j : Bytes) (visitors : VisitorMap)
    → Counted t visitors
    → Counted t (modify j (pos 0) (λ n. n) visitors)
unfolding modify
touch t j visitors c = record {
  held = elim (Bool-cases (contains j visitors)) [
    | inl old ↦ rw old (
        All-update (λ item. item.1 ≡ pos (t item.0)) (λ item. item.1 ≡ pos (t item.0)) j (λ n. n)
          visitors (λ n e. e) (λ k n apart e. e) c.held)
    | inr new ↦ rw new (
        All-insert (λ item. item.1 ≡ pos (t item.0)) j (pos 0) visitors
          (ap pos (sym (c.absent j new))) c.held)
  ];
  absent = λ k h.
      c.absent k (or-false_right _ _ (sym (contains-modify k j (pos 0) (λ n. n) visitors) ∙ h));
}

Counted-eq :
    (t u : Bytes → ℕ) (visitors : VisitorMap)
    → ((k : Bytes) → t k ≡ u k)
    → Counted t visitors
    → Counted u visitors
Counted-eq t u visitors same c = record {
  held = Holds-eq t u visitors (λ k _. same k) c.held;
  absent = λ k h. sym (same k) ∙ c.absent k h;
}

count_needed-Counted :
    (t : Bytes → ℕ) (needed : List Bytes) (visitors : VisitorMap)
    → Counted t visitors
    → Counted (λ k. t k + occurrences k needed) (count_needed needed visitors)
unfolding count_needed occurrences
count_needed-Counted t [] visitors c = Counted-eq t _ visitors (λ k. omega arith) c
count_needed-Counted t (name ∷ needed) visitors c =
    Counted-eq _ _ _ (λ k. omega arith)
      (count_needed-Counted (gained t name) needed _ (Counted-gain t name visitors c))

-- The numbers are those of the whole graph.
count_visitors-Counted :
    (t : Bytes → ℕ) (deps : DependencyGraph) (visitors : VisitorMap)
    → Counted t visitors
    → Counted (λ k. t k + visits (λ _. true) deps k) (count_visitors deps visitors)
unfolding count_visitors visits
count_visitors-Counted t [] visitors c = Counted-eq t _ visitors (λ k. omega arith) c
count_visitors-Counted t ((j, node) ∷ deps) visitors c =
    Counted-eq _ _ _ (λ k. omega arith)
      (count_visitors-Counted (λ k. t k + occurrences k node.needed_libs) deps _
        (count_needed-Counted t node.needed_libs _ (touch t j visitors c)))

pub count_visitors-Holds :
    (deps : DependencyGraph) → Holds (visits (λ _. true) deps) (count_visitors deps [])
unfolding contains
count_visitors-Holds deps =
    Holds-eq _ _ _ (λ k _. omega arith)
      (count_visitors-Counted (λ _. 0) deps [] (record { held = tt; absent = λ k h. refl })).held

-- What is in the map, a predicate on the graph's libraries and on those that they need.
module _ (known : Bytes → Bool) where
  abbrev Within : VisitorMap → Type 0
  Within visitors = (k : Bytes) → contains k visitors ≡ true → known k ≡ true

  modify-Within :
      (j : Bytes) (f : ℤ → ℤ) (visitors : VisitorMap)
      → known j ≡ true
      → Within visitors
      → Within (modify j (pos 0) f visitors)
  modify-Within j f visitors here within k h = elim (equal_cases j k) [
    | inl (same, e) ↦ rw (← e) here
    | inr other ↦ within k (sym (rw (contains-modify k j (pos 0) f visitors, other)) ∙ h)
  ]

  count_needed-Within :
      (needed : List Bytes) (visitors : VisitorMap)
      → All (λ d. known d ≡ true) needed
      → Within visitors
      → Within (count_needed needed visitors)
  unfolding count_needed
  count_needed-Within [] visitors all within = within
  count_needed-Within (name ∷ needed) visitors all within =
      count_needed-Within needed _ all.1 (modify-Within name plus_one visitors all.0 within)

  count_visitors-Within :
      (deps : DependencyGraph) (visitors : VisitorMap)
      → ((k : Bytes) → contains k deps ≡ true → known k ≡ true)
      → AllNeeded (λ _ d. known d ≡ true) deps
      → Within visitors
      → Within (count_visitors deps visitors)
  unfolding count_visitors contains
  count_visitors-Within [] visitors keys all within = within
  count_visitors-Within ((j, node) ∷ deps) visitors keys all within =
      count_visitors-Within deps _ (λ k h. keys k (rw (h, or-true))) all.1
        (count_needed-Within node.needed_libs _ all.0
          (modify-Within j (λ n. n) visitors (keys j (rw (equal_refl j))) within))

-- Nothing leaves the map while the numbers are counted.
count_needed-keeps :
    (k : Bytes) (needed : List Bytes) (visitors : VisitorMap)
    → contains k visitors ≡ true
    → contains k (count_needed needed visitors) ≡ true
unfolding count_needed
count_needed-keeps k [] visitors h = h
count_needed-keeps k (name ∷ needed) visitors h =
    count_needed-keeps k needed _
      (rw (contains-modify k name (pos 0) plus_one visitors, h, or-true))

pub count_visitors-keeps :
    (k : Bytes) (deps : DependencyGraph) (visitors : VisitorMap)
    → (contains k deps || contains k visitors) ≡ true
    → contains k (count_visitors deps visitors) ≡ true
unfolding count_visitors contains
count_visitors-keeps k [] visitors h = h
count_visitors-keeps k ((j, node) ∷ deps) visitors h =
    count_visitors-keeps k deps _ (elim (Bool-cases (contains k deps)) [
      | inl old ↦ rw old
      | inr new ↦ rw new (
          count_needed-keeps k node.needed_libs _
            (contains-modify k j (pos 0) (λ n. n) visitors ∙ ground arith))
    ])

pub contains-count_visitors :
    (k : Bytes) (deps : DependencyGraph)
    → AllNeeded (λ _ d. contains d deps ≡ true) deps
    → contains k (count_visitors deps []) ≡ contains k deps
unfolding contains
contains-count_visitors k deps closed = elim (Bool-cases (contains k deps)) [
  | inl old ↦ count_visitors-keeps k deps [] (rw old) ∙ sym old
  | inr new ↦ elim (Bool-cases (contains k (count_visitors deps []))) [
    | inr gone ↦ gone ∙ sym new
    | inl here ↦
        cc (
          count_visitors-Within (λ j. contains j deps) deps [] (λ j h. h) closed (λ j h. cc) k here)
  ]
]
