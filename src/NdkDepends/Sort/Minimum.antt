-- ===== src/NdkDepends/Sort/Minimum.antt =====
-- The two halves of a round of the sort of ndk-depends.cc: the smallest number of visitors, and
-- what the removal of a library does to the numbers.
use ndk.Base.{
  ℕ, suc, ◌+◌, true, false, List, [], ◌∷◌, Bytes, All, All-map, equal, equal_refl, Bool-cases,
  or-true, inl, inr, ◌≡◌, ◌⊎◌, refl, ap, sym, ◌∙◌, if◌then◌else◌, arith, length,
}
use ndk.Base.CString.{ℤ, pos, negsuc}
use ndk.NdkDepends.Dictionary.{contains, update, modify}
use ndk.NdkDepends.Dictionary.Laws.{
  equal_cases, equal-false, contains-update, All-update, length-update,
}
use ndk.NdkDepends.Sort.{VisitorMap, minus_one, le_int, min_loop, release}
use ndk.NdkDepends.Sort.Visits.{occurrences}
use ndk.NdkDepends.Sort.Counts.{Holds, Holds-eq}

-- The numbers of the needed libraries fall by one for each place; no item comes or goes.
Holds-lose :
    (t u : Bytes → ℕ) (j : Bytes) (visitors : VisitorMap)
    → ((k : Bytes) → t k ≡ u k + (if equal j k then 1 else 0))
    → Holds t visitors
    → Holds u (update j minus_one visitors)
Holds-lose t u j visitors split held =
    All-update (λ item. item.1 ≡ pos (t item.0)) (λ item. item.1 ≡ pos (u item.0)) j minus_one
      visitors
      (λ n e.
        let one_more : t j ≡ suc (u j) = split j ∙ rw (equal_refl j) (omega arith) in
        rw (e, one_more))
      (λ k n apart e. e ∙ ap pos (split k ∙ rw (equal-false j k apart) (omega arith))) held

abbrev pub AllIn : VisitorMap → List Bytes → Type 0
AllIn visitors = All (λ d. contains d visitors ≡ true)

AllIn-update :
    (j : Bytes) (f : ℤ → ℤ) (visitors : VisitorMap) (names : List Bytes)
    → AllIn visitors names
    → AllIn (update j f visitors) names
AllIn-update j f visitors names = All-map _ _ (λ d h. contains-update d j f visitors ∙ h) names

pub release-Holds :
    (u : Bytes → ℕ) (needed : List Bytes) (visitors : VisitorMap)
    → AllIn visitors needed
    → Holds (λ k. u k + occurrences k needed) visitors
    → Holds u (release needed visitors)
unfolding release modify occurrences
release-Holds u [] visitors inside held = Holds-eq _ u visitors (λ k _. omega arith) held
release-Holds u (name ∷ needed) visitors inside held = rw (inside.0) (
    release-Holds u needed (update name minus_one visitors)
      (AllIn-update name minus_one visitors needed inside.1)
      (Holds-lose _ _ name visitors (λ k. omega arith) held))

pub contains-release :
    (k : Bytes) (needed : List Bytes) (visitors : VisitorMap)
    → AllIn visitors needed
    → contains k (release needed visitors) ≡ contains k visitors
unfolding release modify
contains-release k [] visitors inside = refl
contains-release k (name ∷ needed) visitors inside = rw (inside.0) (
    contains-release k needed (update name minus_one visitors)
      (AllIn-update name minus_one visitors needed inside.1)
    ∙ contains-update k name minus_one visitors)

pub length-release :
    (needed : List Bytes) (visitors : VisitorMap)
    → AllIn visitors needed
    → length (release needed visitors) ≡ length visitors
unfolding release modify
length-release [] visitors inside = refl
length-release (name ∷ needed) visitors inside = rw (inside.0) (
    length-release needed (update name minus_one visitors)
      (AllIn-update name minus_one visitors needed inside.1)
    ∙ length-update name minus_one visitors)

-- A predicate of all items holds of the smallest one, unless it is the one that the loop starts
-- with, which is greater than 0.
min_loop-one :
    (P : Bytes × ℤ → Type 0) (visitors : VisitorMap) (best : Bytes × ℤ)
    → All P visitors
    → P best ⊎ (le_int best.1 (pos 0) ≡ false)
    → P (min_loop visitors best) ⊎ (le_int (min_loop visitors best).1 (pos 0) ≡ false)
unfolding min_loop
min_loop-one P [] best all start = start
min_loop-one P ((k, n) ∷ visitors) (best, least) all start =
    min_loop-one P visitors (if le_int n least then (k, n) else (best, least)) all.1
      (elim (Bool-cases (le_int n least)) [ inl e ↦ rw e (inl (all.0)) | inr e ↦ rw e start ])

min_loop-le :
    (visitors : VisitorMap) (best : Bytes × ℤ)
    → le_int best.1 (pos 0) ≡ true
    → le_int (min_loop visitors best).1 (pos 0) ≡ true
unfolding min_loop
min_loop-le [] best h = h
min_loop-le ((k, n) ∷ visitors) (best, least) h =
    min_loop-le visitors (if le_int n least then (k, n) else (best, least))
      (elim (Bool-cases (le_int n least)) [ inl e ↦ rw e (le_trans n least e h) | inr e ↦ rw e h ])
  where
    le_trans :
        (n least : ℤ)
        → le_int n least ≡ true
        → le_int least (pos 0) ≡ true
        → le_int n (pos 0) ≡ true
    le_trans (pos a) (pos b) p q = ground arith
    le_trans (pos a) (negsuc b) p q = cc
    le_trans (negsuc a) least p q = refl

min_loop-zero :
    (t : Bytes → ℕ) (k : Bytes) (visitors : VisitorMap) (best : Bytes × ℤ)
    → Holds t visitors
    → contains k visitors ≡ true
    → t k ≡ 0
    → le_int (min_loop visitors best).1 (pos 0) ≡ true
unfolding min_loop contains
min_loop-zero t k [] best held here none = cc
min_loop-zero t k ((j, n) ∷ visitors) (best, least) held here none = elim (equal_cases j k) [
  | inr other ↦ min_loop-zero t k visitors _ held.1 (rw other at here) none
  | inl (same, e) ↦
      let zero_here : n ≡ pos 0 = held.0 ∙ ap (λ s. pos (t s)) e ∙ ap pos none in
      min_loop-le visitors (if le_int n least then (j, n) else (best, least))
        (rw zero_here (least_zero least))
]
  where
    least_zero :
        (least : ℤ)
        → (let r : Bytes × ℤ = if le_int (pos 0) least then (j, pos 0) else (best, least) in
            le_int r.1 (pos 0))
          ≡ true
    least_zero (pos m) = let low : le_int (pos 0) (pos m) ≡ true = ground arith in rw low
    least_zero (negsuc m) = refl

abbrev IsItem : (Bytes → ℕ) → VisitorMap → Bytes × ℤ → Type 0
IsItem t visitors item = (contains item.0 visitors ≡ true) × (item.1 ≡ pos (t item.0))

items :
    (t : Bytes → ℕ) (visitors part : VisitorMap)
    → ((k : Bytes) → contains k part ≡ true → contains k visitors ≡ true)
    → Holds t part
    → All (IsItem t visitors) part
unfolding contains
items t visitors [] inside held = tt
items t visitors ((k, n) ∷ part) inside held = (
  (inside k (rw (equal_refl k)), held.0),
  items t visitors part (λ j h. inside j (rw (h, or-true))) held.1,
)

-- Where one number is 0, the smallest one is, and it is an item's.
pub min_loop_lem :
    (t : Bytes → ℕ) (k : Bytes) (visitors : VisitorMap) (n : ℕ)
    → Holds t visitors
    → contains k visitors ≡ true
    → t k ≡ 0
    → (contains (min_loop visitors ([], pos (suc n))).0 visitors ≡ true)
      × (t (min_loop visitors ([], pos (suc n))).0 ≡ 0)
      × ((min_loop visitors ([], pos (suc n))).1 ≡ pos 0)
min_loop_lem t k visitors n held here none =
    elim (min_loop-one (IsItem t visitors) visitors ([], pos (suc n))
      (items t visitors visitors (λ j h. h) held) (inr (ground arith))) [
        | inr e ↦ cc (min_loop-zero t k visitors ([], pos (suc n)) held here none)
        | inl item ↦
            let zero_at = le_zero (t (min_loop visitors ([], pos (suc n))).0) (
              ap (λ m. le_int m (pos 0)) (sym item.1)
              ∙ min_loop-zero t k visitors ([], pos (suc n)) held here none) in
            (item.0, zero_at, item.1 ∙ ap pos zero_at)
      ]
  where
    le_zero : (m : ℕ) → le_int (pos m) (pos 0) ≡ true → m ≡ 0
    le_zero m h = ground arith
