-- ===== src/NdkDepends/Sort/Acyclic.antt =====
-- Graphs without cycles and orders of their libraries, for the sort of ndk-depends.cc.
use ndk.Base.{
  ℕ, ◌≤◌, ◌<◌, Bool, true, not, ◌&&◌, List, [], ◌∷◌, Bytes, All, equal, equal_refl, Bool-cases,
  or-true, inl, inr, ◌≡◌, if◌then◌else◌, arith, dec_lt,
}
use ndk.Base.CString.{ℤ}
use ndk.NdkDepends.Dictionary.{contains}
use ndk.NdkDepends.Dictionary.Laws.{equal_cases}
use ndk.NdkDepends.Graph.{DependencyGraph, node_at}
use ndk.NdkDepends.Sort.{VisitorMap}
use ndk.NdkDepends.Sort.Visits.{occurrences, AllNeeded, Distinct}

-- A graph as BuildDependencyGraph makes it, whose edges go to lower ranks.
pub record IsAcyclic (rank : Bytes → ℕ) (deps : DependencyGraph) : Type 0 where
  pub distinct : Distinct deps
  pub closed : AllNeeded (λ _ d. contains d deps ≡ true) deps
  pub ranked : AllNeeded (λ k d. rank d < rank k) deps

-- Each library stands before all that it needs.
abbrev pub IsOrdered : DependencyGraph → List Bytes → Type 0
IsOrdered deps [] = Unit
IsOrdered deps (k ∷ libs) =
    All (λ d. 0 < occurrences d libs) (node_at deps k).needed_libs × IsOrdered deps libs

-- A library of highest rank.
abbrev pub IsHighest : (Bytes → ℕ) → VisitorMap → Bytes → Type 0
IsHighest rank visitors top =
    (contains top visitors ≡ true) × ((j : Bytes) → contains j visitors ≡ true → rank j ≤ rank top)

pub top_of :
    (rank : Bytes → ℕ) (k : Bytes) (n : ℤ) (visitors : VisitorMap)
    → (top : Bytes) × IsHighest rank ((k, n) ∷ visitors) top
unfolding contains
top_of rank k n [] = (
  k,
  (
    rw (equal_refl k),
    λ j h. elim (equal_cases k j) [
      | inl (same, e) ↦ rw e (omega arith)
      | inr other ↦ cc (rw other at h)
    ],
  ),
)
top_of rank k n ((i, m) ∷ visitors) =
    let (top, (here, high)) = top_of rank i m visitors in
    elim (dec_lt (rank top) (rank k)) [
      | yes above ↦ (
        k,
        (
          rw (equal_refl k),
          λ j h. elim (equal_cases k j) [
            | inl (same, e) ↦ rw e (omega arith)
            | inr other ↦ let low = high j (rw other at h) in omega arith
          ],
        ),
      )
      | no below ↦ (
        top,
        (
          rw (here, or-true),
          λ j h. elim (equal_cases k j) [
            | inl (same, e) ↦ rw (← e) (omega arith)
            | inr other ↦ high j (rw other at h)
          ],
        ),
      )
    ]

pub once_more :
    (m k : Bytes) (libs : List Bytes) (there : Bool)
    → (equal m k ≡ true → there ≡ true)
    → occurrences k libs ≡ (if not (equal m k) && there then 1 else 0)
    → occurrences k (m ∷ libs) ≡ (if there then 1 else 0)
unfolding occurrences
once_more m k libs there self once = elim (Bool-cases (equal m k)) [
  | inl same ↦ rw (same, self same) (let rest = rw same at once in omega arith)
  | inr other ↦ rw other (let rest = rw other at once in ground arith)
]
