-- ===== src/NdkDepends/Sort/Cycles.antt =====
-- The sort of ndk-depends.cc on a graph with a cycle: `visitors[libname]--` puts a library back
-- that was taken already.
use ndk.Base.{
  ℕ, zero, suc, ◌<◌, ◌-◌, ◌^◌, true, false, refl, All, All-map, if◌then◌else◌, List, [], ◌∷◌, ◌++◌,
  Bytes, Bool-cases, or-true, inl, inr, ◌≡◌, ◌∙◌, arith,
}
use ndk.Base.CString.{ℤ, pos, negsuc}
use ndk.NdkDepends.Dictionary.{contains, modify, erase}
use ndk.NdkDepends.Dictionary.Laws.{
  equal_cases, contains-modify, contains-erase, All-insert, All-update, All-erase,
}
use ndk.NdkDepends.Graph.{DependencyGraph, node_at, out_of_fuel}
use ndk.NdkDepends.Sort.{
  VisitorMap, int_max, is_int_max, le_int, min_loop, minus_one, release, remove_library, sort_loop,
  count_visitors, get_topological_sorted_libraries,
}
use ndk.NdkDepends.Sort.Visits.{occurrences, visits}
use ndk.NdkDepends.Sort.Counts.{count_visitors-Holds, count_visitors-keeps}

-- A library of the graph, and one that it needs, again and again.
pub record Cycle (deps : DependencyGraph) : Type 0 where
  pub lib : ℕ → Bytes
  pub known : contains (lib 0) deps ≡ true
  pub needs : (n : ℕ) → 0 < occurrences (lib (suc n)) (node_at deps (lib n)).needed_libs

release-keeps :
    (k : Bytes) (needed : List Bytes) (visitors : VisitorMap)
    → contains k visitors ≡ true
    → contains k (release needed visitors) ≡ true
unfolding release
release-keeps k [] visitors h = h
release-keeps k (name ∷ needed) visitors h =
    release-keeps k needed _ (rw (contains-modify k name (pos 0) minus_one visitors, h, or-true))

-- What is released is in the map behind it.
release-adds :
    (k : Bytes) (needed : List Bytes) (visitors : VisitorMap)
    → 0 < occurrences k needed
    → contains k (release needed visitors) ≡ true
unfolding release occurrences
release-adds k [] visitors h = absurd (omega arith)
release-adds k (name ∷ needed) visitors h = elim (equal_cases name k) [
  | inl (same, e) ↦
      release-keeps k needed _ (rw (contains-modify k name (pos 0) minus_one visitors, same))
  | inr other ↦ let rest = rw other at h in release-adds k needed _ (omega arith)
]

-- A number of visitors below the largest `int`.
abbrev IsLow : Bytes × ℤ → Type 0
IsLow item = le_int item.1 (pos (int_max - 1)) ≡ true

minus_one-low :
    (n : ℤ) → le_int n (pos (int_max - 1)) ≡ true → le_int (minus_one n) (pos (int_max - 1)) ≡ true
minus_one-low (pos zero) h = refl
minus_one-low (pos (suc n)) h = ground arith
minus_one-low (negsuc n) h = refl

release-IsLow :
    (needed : List Bytes) (visitors : VisitorMap)
    → All IsLow visitors
    → All IsLow (release needed visitors)
unfolding release modify
release-IsLow [] visitors low = low
release-IsLow (name ∷ needed) visitors low =
    release-IsLow needed _ (elim (Bool-cases (contains name visitors)) [
      | inl old ↦ rw old (
          All-update IsLow IsLow name minus_one visitors (λ n h. minus_one-low n h)
            (λ k n apart h. h) low)
      | inr new ↦ rw new (All-insert IsLow name (negsuc 0) visitors refl low)
    ])

remove-IsLow :
    (deps : DependencyGraph) (m : Bytes) (visitors : VisitorMap)
    → All IsLow visitors
    → All IsLow (remove_library deps m visitors)
unfolding remove_library
remove-IsLow deps m visitors low =
    release-IsLow (node_at deps m).needed_libs (erase m visitors) (All-erase IsLow m visitors low)

min_loop-IsLow :
    (visitors : VisitorMap) (best : Bytes × ℤ)
    → All IsLow visitors
    → IsLow best
    → IsLow (min_loop visitors best)
unfolding min_loop
min_loop-IsLow [] best low h = h
min_loop-IsLow ((k, n) ∷ visitors) (best, least) low h =
    min_loop-IsLow visitors (if le_int n least then (k, n) else (best, least)) low.1
      (elim (Bool-cases (le_int n least)) [ inl e ↦ rw e (low.0) | inr e ↦ rw e h ])

not_int_max : (n : ℤ) → le_int n (pos (int_max - 1)) ≡ true → is_int_max n ≡ false
not_int_max (pos n) h = ground arith
not_int_max (negsuc n) h = refl

below_int_max : (n : ℤ) → le_int n (pos (int_max - 1)) ≡ true → le_int n (pos int_max) ≡ true
below_int_max (pos n) h = ground arith
below_int_max (negsuc n) h = refl

-- The smallest number of a map that is not empty is not the one that the search starts with.
min_loop-found :
    (item : Bytes × ℤ) (visitors : VisitorMap)
    → All IsLow (item ∷ visitors)
    → is_int_max (min_loop (item ∷ visitors) ([], pos int_max)).1 ≡ false
unfolding min_loop
min_loop-found (k, n) visitors low =
    let first : Bytes × ℤ = if le_int n (pos int_max) then (k, n) else ([], pos int_max) in
    not_int_max (min_loop visitors first).1
      (min_loop-IsLow visitors first low.1 (rw (below_int_max n low.0) (low.0)))

module _ (deps : DependencyGraph) (cycle : Cycle deps) where
  -- Some library of the cycle is in the map.
  abbrev Waiting : VisitorMap → Type 0
  Waiting visitors = (n : ℕ) × (contains (cycle.lib n) visitors ≡ true)

  remove-Waiting :
      (m : Bytes) (visitors : VisitorMap)
      → Waiting visitors
      → Waiting (remove_library deps m visitors)
  unfolding remove_library
  remove-Waiting m visitors (n, here) = elim (equal_cases m (cycle.lib n)) [
    | inl (same, e) ↦ (
      suc n,
      release-adds (cycle.lib (suc n)) (node_at deps m).needed_libs (erase m visitors)
          (rw e (cycle.needs n)),
    )
    | inr other ↦ (
      n,
      release-keeps (cycle.lib n) (node_at deps m).needed_libs (erase m visitors)
          (contains-erase (cycle.lib n) m visitors ∙ rw (other, here)),
    )
  ]

  sort_loop-out_of_fuel :
      (f : ℕ) (visitors : VisitorMap) (result : List Bytes)
      → All IsLow visitors
      → Waiting visitors
      → sort_loop f deps visitors result ≡ out_of_fuel
  unfolding sort_loop contains
  sort_loop-out_of_fuel zero visitors result low w = refl
  sort_loop-out_of_fuel (suc f) [] result low (n, here) = cc
  sort_loop-out_of_fuel (suc f) (item ∷ visitors) result low w =
      let m = (min_loop (item ∷ visitors) ([], pos int_max)).0 in
      rw (min_loop-found item visitors low) (
        sort_loop-out_of_fuel f (remove_library deps m (item ∷ visitors)) (result ++ m ∷ [])
          (remove-IsLow deps m (item ∷ visitors) low) (remove-Waiting m (item ∷ visitors) w))

  -- Where a library of the graph needs one that needs another and so on without end, as in any
  -- circle of needs, and each library is needed at fewer places than the largest `int`, the loop of
  -- the sort never ends: no number of rounds is enough. The numbers of visitors that fall are
  -- integers, without a smallest one.
  pub get_topological_sorted_libraries-out_of_fuel :
      (fuel : ℕ)
      → ((k : Bytes) → visits (λ _. true) deps k < 2 ^ 31 - 1)
      → get_topological_sorted_libraries fuel deps ≡ out_of_fuel
  unfolding get_topological_sorted_libraries
  get_topological_sorted_libraries-out_of_fuel fuel few =
      sort_loop-out_of_fuel fuel (count_visitors deps []) []
        (All-map _ IsLow (λ item e. rw e (low item.0)) (count_visitors deps [])
          (count_visitors-Holds deps))
        (0, count_visitors-keeps (cycle.lib 0) deps [] (rw (cycle.known)))
    where
      low : (k : Bytes) → le_int (pos (visits (λ _. true) deps k)) (pos (int_max - 1)) ≡ true
      low k = let h = few k in ground arith
