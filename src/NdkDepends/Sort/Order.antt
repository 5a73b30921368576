-- ===== src/NdkDepends/Sort/Order.antt =====
-- What GetTopologicalSortedLibraries of ndk-depends.cc returns for a graph without cycles.
use ndk.Base.{
  ℕ, zero, suc, ◌+◌, ◌<◌, true, false, not, ◌&&◌, List, [], ◌∷◌, ◌++◌, append_assoc, append-nil,
  Bytes, All, All-map, All-zip, equal, equal→eq, Bool-cases, and-right, inl, inr, ◌≡◌, refl, ap,
  sym, ◌∙◌, if◌then◌else◌, arith, length,
}
use ndk.Base.CString.{ℤ, pos}
use ndk.NdkDepends.Dictionary.{contains, erase}
use ndk.NdkDepends.Dictionary.Laws.{equal_cases, contains-erase, All-erase, length-erase-lt}
use ndk.NdkDepends.Graph.{DependencyGraph, node_at, done}
use ndk.NdkDepends.Sort.{
  VisitorMap, int_max, min_loop, remove_library, sort_loop, count_visitors,
  get_topological_sorted_libraries,
}
use ndk.NdkDepends.Sort.Visits.{
  occurrences, visits, AllNeeded-at, AllNeeded-map, All-occurrences, visits-zero, visits-drop,
  visits_same,
}
use ndk.NdkDepends.Sort.Counts.{Holds, Holds-eq, count_visitors-Holds, contains-count_visitors}
use ndk.NdkDepends.Sort.Minimum.{
  AllIn, release-Holds, contains-release, length-release, min_loop_lem,
}
use ndk.NdkDepends.Sort.Acyclic.{IsAcyclic, IsOrdered, IsHighest, top_of, once_more}

module _ (rank : Bytes → ℕ) (deps : DependencyGraph) (acyclic : IsAcyclic rank deps) where
  open acyclic use {distinct, closed, ranked}

  abbrev needed : Bytes → List Bytes
  needed k = (node_at deps k).needed_libs

  -- The numbers are those of the libraries that are left, and what has gone is needed no more.
  record Sorting (visitors : VisitorMap) : Type 0 where
    held : Holds (visits (λ j. contains j visitors) deps) visitors
    known : (k : Bytes) → contains k visitors ≡ true → contains k deps ≡ true
    gone :
        (k : Bytes)
        → contains k deps ≡ true
        → contains k visitors ≡ false
        → visits (λ j. contains j visitors) deps k ≡ 0

  Sorting-start : Sorting (count_visitors deps [])
  Sorting-start =
      let same = λ (k : Bytes). contains-count_visitors k deps closed in
      record {
        held =
            Holds-eq _ _ _ (λ k _. sym (visits_same _ _ k deps (λ j h. same j ∙ h)))
              (count_visitors-Holds deps);
        known = λ k h. sym (same k) ∙ h;
        gone = λ k h h'. cc (same k);
      }

  -- Some library that is left is needed by none that is left.
  none_needs :
      (top : Bytes) (visitors : VisitorMap)
      → IsHighest rank visitors top
      → visits (λ j. contains j visitors) deps top ≡ 0
  none_needs top visitors (here, high) =
      visits-zero (λ j. contains j visitors) top deps
        (AllNeeded-map _ _
          (λ k d less_rank there e.
            let low = high k there in let same = ap rank e in absurd (omega arith))
          deps ranked)

  module _ (m : Bytes) (visitors : VisitorMap) (s : Sorting visitors)
      (here : contains m visitors ≡ true)
      (free : visits (λ j. contains j visitors) deps m ≡ 0) where
    left_visits :
        (k : Bytes)
        → visits (λ j. contains j (erase m visitors)) deps k + occurrences k (needed m)
          ≡ visits (λ j. contains j visitors) deps k
    left_visits k =
        visits-drop (λ j. contains j (erase m visitors)) (λ j. contains j visitors) m k deps
          distinct (s.known m here) here (λ j. contains-erase j m visitors)

    -- What the library needs is left.
    needed_left : AllIn (erase m visitors) (needed m)
    needed_left =
        All-map _ _ (λ d h. still d h.0 h.1.0 h.1.1) (needed m)
          (All-zip _ _ (needed m) (AllNeeded-at (λ _ d. contains d deps ≡ true) m deps closed) (
            All-zip _ _ (needed m) (AllNeeded-at (λ k d. rank d < rank k) m deps ranked)
              (All-occurrences (needed m))))
      where
        still :
            (d : Bytes)
            → contains d deps ≡ true
            → rank d < rank m
            → 0 < occurrences d (needed m)
            → contains d (erase m visitors) ≡ true
        still d listed low wanted = elim (equal_cases m d) [
          | inl (same, e) ↦ absurd (omega (arith, ap rank e))
          | inr other ↦ elim (Bool-cases (contains d visitors)) [
            | inl there ↦ contains-erase d m visitors ∙ rw (other, there)
            | inr away ↦ absurd (omega (arith, left_visits d, s.gone d listed away))
          ]
        ]

    needed_in_rest : All (λ d. contains d (remove_library deps m visitors) ≡ true) (needed m)
    unfolding remove_library
    needed_in_rest =
        All-map _ _ (λ d h. contains-release d (needed m) (erase m visitors) needed_left ∙ h)
          (needed m) needed_left

    contains-remove :
        (k : Bytes)
        → contains k (remove_library deps m visitors) ≡ (not (equal m k) && contains k visitors)
    unfolding remove_library
    contains-remove k =
        contains-release k (needed m) (erase m visitors) needed_left ∙ contains-erase k m visitors

    length-remove : length (remove_library deps m visitors) < length visitors
    unfolding remove_library
    length-remove = omega (
      arith,
      length-release (needed m) (erase m visitors) needed_left,
      length-erase-lt m visitors here,
    )

    Sorting-remove : Sorting (remove_library deps m visitors)
    unfolding remove_library
    Sorting-remove =
        let same = λ (k : Bytes).
          visits_same (λ j. contains j (erase m visitors))
            (λ j. contains j (remove_library deps m visitors)) k deps
            (λ j _. sym (contains-release j (needed m) (erase m visitors) needed_left)) in
        record {
          held = release-Holds _ (needed m) (erase m visitors) needed_left (
              Holds-eq _ _ (erase m visitors) (λ k _. omega (arith, left_visits k, same k))
                (All-erase _ m visitors s.held));
          known = λ k h. s.known k (and-right _ _ (sym (contains-remove k) ∙ h));
          gone = λ k listed away. elim (equal_cases m k) [
            | inl (e', e) ↦
                omega (
                  arith,
                  same k,
                  left_visits k,
                  free,
                  ap (visits (λ j. contains j visitors) deps) e,
                )
            | inr other ↦
                let out = s.gone k listed (sym (rw (contains-remove k, other)) ∙ away) in
                omega (arith, same k, left_visits k, out)
          ];
        }

  -- What the loop gives for the libraries that are left.
  Result : ℕ → VisitorMap → List Bytes → Type 0
  unfolding sort_loop
  Result f visitors result =
      (libs : List Bytes) × ((sort_loop f deps visitors result ≡ done (result ++ libs))
        × IsOrdered deps libs
        × ((k : Bytes) → occurrences k libs ≡ (if contains k visitors then 1 else 0)))

  sort_round :
      (f : ℕ) (m : Bytes) (visitors : VisitorMap) (result : List Bytes) (s : Sorting visitors)
      → contains m visitors ≡ true
      → visits (λ j. contains j visitors) deps m ≡ 0
      → (sort_loop (suc f) deps visitors result
          ≡ sort_loop f deps (remove_library deps m visitors) (result ++ m ∷ []))
      → Result f (remove_library deps m visitors) (result ++ m ∷ [])
      → Result (suc f) visitors result
  unfolding Result occurrences
  sort_round f m visitors result s here free step (libs, (e, ordered, once)) = (
    m ∷ libs,
    (
      step ∙ e ∙ ap done (append_assoc result (m ∷ []) libs),
      (
        All-map _ _ (λ d there. let e : occurrences d libs ≡ 1 = once d ∙ rw there in omega arith)
            (needed m) (needed_in_rest m visitors s here free),
        ordered,
      ),
      λ k.
          once_more m k libs (contains k visitors)
            (λ same. let e = equal→eq m k same in rw (← e) here)
            (once k ∙ ap (λ b. if b then 1 else 0) (contains-remove m visitors s here free k)),
    ),
  )

  sort_step :
      (f : ℕ) (k : Bytes) (n : ℤ) (visitors : VisitorMap) (result : List Bytes)
      → (min_loop ((k, n) ∷ visitors) ([], pos int_max)).1 ≡ pos 0
      → (let m = (min_loop ((k, n) ∷ visitors) ([], pos int_max)).0 in
          sort_loop (suc f) deps ((k, n) ∷ visitors) result
          ≡ sort_loop f deps (remove_library deps m ((k, n) ∷ visitors)) (result ++ m ∷ []))
  unfolding sort_loop
  sort_step f k n visitors result least = rw least

  sort_loop_lem :
      (f : ℕ) (visitors : VisitorMap) (result : List Bytes)
      → length visitors < f
      → Sorting visitors
      → Result f visitors result
  unfolding Result sort_loop contains occurrences
  sort_loop_lem zero visitors result h s = elim h [ ]
  sort_loop_lem (suc f) [] result h s = ([], (ap done (sym (append-nil result)), tt, λ k. refl))
  sort_loop_lem (suc f) ((k, n) ∷ visitors) result h s =
      let all : VisitorMap = (k, n) ∷ visitors in
      let (top, high) = top_of rank k n visitors in
      let (here, free, least) =
        min_loop_lem (visits (λ j. contains j all) deps) top all 2147483646 s.held (high.0)
          (none_needs top all high) in
      let m : Bytes = (min_loop all ([], pos int_max)).0 in
      sort_round f m all result s here free (sort_step f k n visitors result least) (
        sort_loop_lem f (remove_library deps m all) (result ++ m ∷ [])
          (omega (arith, length-remove m all s here free)) (Sorting-remove m all s here free))

  -- Let a graph have each library once, and every library that another one needs, and let no
  -- library need itself over others: a rank falls along each need. With a round for each item of
  -- the map of visitors and one more the sort returns, without a panic; its result has each library
  -- of the graph exactly once and nothing else, and each one stands before all libraries that it
  -- needs.
  pub get_topological_sorted_libraries-IsOrdered :
      (fuel : ℕ)
      → length (count_visitors deps []) < fuel
      → (libs : List Bytes) × (get_topological_sorted_libraries fuel deps ≡ done libs)
        × IsOrdered deps libs
        × ((k : Bytes) → occurrences k libs ≡ (if contains k deps then 1 else 0))
  unfolding get_topological_sorted_libraries Result
  get_topological_sorted_libraries-IsOrdered fuel enough =
      let (libs, (returns, ordered, once)) =
        sort_loop_lem fuel (count_visitors deps []) [] enough Sorting-start in
      (
        libs,
        returns,
        ordered,
        λ k. once k ∙ ap (λ b. if b then 1 else 0) (contains-count_visitors k deps closed),
      )
