-- ===== src/NdkDepends/Dictionary/Laws.antt =====
-- What the operations of a map do to its keys, to what is found, and to each item.
use ndk.Base.{
  ◌≤◌, ◌<◌, true, false, not, ◌&&◌, ◌||◌, none, some, List, [], ◌∷◌, Bytes, length, All, equal,
  equal→eq, equal_refl, Bool-cases, inl, inr, ◌≡◌, ◌⊎◌, refl, ap, ◌∙◌, if◌then◌else◌, arith,
}
use ndk.NdkDepends.Dictionary.{less, contains, lookup, insert, update, modify, assign, erase}

pub equal_cases : (j k : Bytes) → ((equal j k ≡ true) × (j ≡ k)) ⊎ (equal j k ≡ false)
equal_cases j k = elim (Bool-cases (equal j k)) [ inl e ↦ inl (e, equal→eq j k e) | inr e ↦ inr e ]

pub equal-false : (j k : Bytes) → equal k j ≡ false → equal j k ≡ false
equal-false j k h = elim (equal_cases j k) [
  | inl (same, e) ↦ cc (h, equal_refl k, ap (equal k) e)
  | inr differ ↦ differ
]

module _ {ℓ} {V : Type ℓ} where
  pub contains-insert :
      (k j : Bytes) (v : V) (items : List (Bytes × V))
      → contains k (insert j v items) ≡ (equal j k || contains k items)
  unfolding contains insert
  contains-insert k j v [] = refl
  contains-insert k j v ((i, w) ∷ items) = ground (arith, contains-insert k j v items)

  pub contains-update :
      (k j : Bytes) (f : V → V) (items : List (Bytes × V))
      → contains k (update j f items) ≡ contains k items
  unfolding contains update
  contains-update k j f [] = refl
  contains-update k j f ((i, w) ∷ items) = ground (arith, contains-update k j f items)

  pub contains-modify :
      (k j : Bytes) (v : V) (f : V → V) (items : List (Bytes × V))
      → contains k (modify j v f items) ≡ (equal j k || contains k items)
  unfolding modify
  contains-modify k j v f items = elim (Bool-cases (contains j items)) [
    | inr new ↦ rw new (contains-insert k j (f v) items)
    | inl old ↦ rw old (
        contains-update k j f items
        ∙ elim (equal_cases j k) [ inl (same, e) ↦ rw (same, ← e) old | inr other ↦ rw other ])
  ]

  pub assign-modify :
      (j : Bytes) (v : V) (items : List (Bytes × V)) → assign j v items ≡ modify j v (λ _. v) items
  unfolding assign modify
  assign-modify j v items = refl

  pub contains-erase :
      (k j : Bytes) (items : List (Bytes × V))
      → contains k (erase j items) ≡ (not (equal j k) && contains k items)
  unfolding contains erase
  contains-erase k j [] = ground arith
  contains-erase k j ((i, w) ∷ items) =
      ground
        (arith, contains-erase k j items, equal→eq i j, equal→eq i k, equal→eq j k, equal_refl j)

  -- Every item satisfies a predicate.
  module _ {κ} (P : Bytes × V → Type κ) where
    pub All-insert :
        (j : Bytes) (v : V) (items : List (Bytes × V))
        → P (j, v)
        → All P items
        → All P (insert j v items)
    unfolding insert
    All-insert j v [] p all = (p, tt)
    All-insert j v ((i, w) ∷ items) p all = elim (Bool-cases (less j i)) [
      | inl e ↦ rw e (p, all)
      | inr e ↦ rw e (all.0, All-insert j v items p all.1)
    ]

    pub All-erase : (j : Bytes) (items : List (Bytes × V)) → All P items → All P (erase j items)
    unfolding erase
    All-erase j [] all = tt
    All-erase j ((i, w) ∷ items) all = elim (Bool-cases (equal i j)) [
      | inl e ↦ rw e (All-erase j items all.1)
      | inr e ↦ rw e (all.0, All-erase j items all.1)
    ]

  pub All-update {κ ι} :
      (P : Bytes × V → Type κ) (Q : Bytes × V → Type ι) (j : Bytes) (f : V → V)
      (items : List (Bytes × V))
      → ((v : V) → P (j, v) → Q (j, f v))
      → ((k : Bytes) (v : V) → equal k j ≡ false → P (k, v) → Q (k, v))
      → All P items
      → All Q (update j f items)
  unfolding update
  All-update P Q j f [] at_j behind all = tt
  All-update P Q j f ((i, w) ∷ items) at_j behind all = elim (equal_cases i j) [
    | inl (same, e) ↦
        rw same (rw e (at_j w (rw e at (all.0))), All-update P Q j f items at_j behind all.1)
    | inr other ↦ rw other (behind i w other all.0, All-update P Q j f items at_j behind all.1)
  ]

  pub length-update :
      (j : Bytes) (f : V → V) (items : List (Bytes × V)) → length (update j f items) ≡ length items
  unfolding update
  length-update j f [] = refl
  length-update j f ((i, w) ∷ items) = ground (arith, length-update j f items)

  pub length-erase-le :
      (j : Bytes) (items : List (Bytes × V)) → length (erase j items) ≤ length items
  unfolding erase
  length-erase-le j [] = omega arith
  length-erase-le j ((i, w) ∷ items) = ground (arith, length-erase-le j items)

  pub length-erase-lt :
      (j : Bytes) (items : List (Bytes × V))
      → contains j items ≡ true
      → length (erase j items) < length items
  unfolding erase contains
  length-erase-lt j [] h = cc
  length-erase-lt j ((i, w) ∷ items) h =
      ground (arith, length-erase-le j items, length-erase-lt j items)

  pub lookup-insert :
      (k j : Bytes) (v : V) (items : List (Bytes × V))
      → contains j items ≡ false
      → lookup k (insert j v items) ≡ (if equal j k then some v else lookup k items)
  unfolding lookup insert contains
  lookup-insert k j v [] new = refl
  lookup-insert k j v ((i, w) ∷ items) new =
      ground (arith, lookup-insert k j v items, equal→eq i k, equal→eq j k, equal_refl k)

  pub lookup-update_other :
      (k j : Bytes) (f : V → V) (items : List (Bytes × V))
      → equal j k ≡ false
      → lookup k (update j f items) ≡ lookup k items
  unfolding lookup update
  lookup-update_other k j f [] other = refl
  lookup-update_other k j f ((i, w) ∷ items) other = elim (equal_cases i j) [
    | inl (same, e) ↦ rw (same, e, other) (lookup-update_other k j f items other)
    | inr differ ↦ rw (differ, lookup-update_other k j f items other)
  ]

  lookup-update_self :
      (j : Bytes) (v : V) (items : List (Bytes × V))
      → contains j items ≡ true
      → lookup j (update j (λ _. v) items) ≡ some v
  unfolding lookup update contains
  lookup-update_self j v [] old = cc
  lookup-update_self j v ((i, w) ∷ items) old = elim (Bool-cases (equal i j)) [
    | inl same ↦ rw (same, same)
    | inr differ ↦ rw (differ, differ) (lookup-update_self j v items (rw differ at old))
  ]

  pub lookup-update :
      (k j : Bytes) (v : V) (items : List (Bytes × V))
      → contains j items ≡ true
      → lookup k (update j (λ _. v) items) ≡ (if equal j k then some v else lookup k items)
  lookup-update k j v items old = elim (equal_cases j k) [
    | inl (same, e) ↦ rw (same, ← e) (lookup-update_self j v items old)
    | inr other ↦ rw other (lookup-update_other k j (λ _. v) items other)
  ]

  pub lookup-eq-none :
      (k : Bytes) (items : List (Bytes × V)) → contains k items ≡ false → lookup k items ≡ none
  unfolding lookup contains
  lookup-eq-none k [] h = refl
  lookup-eq-none k ((i, w) ∷ items) h = ground (arith, lookup-eq-none k items)

  pub lookup-assign :
      (k j : Bytes) (v : V) (items : List (Bytes × V))
      → lookup k (assign j v items) ≡ (if equal j k then some v else lookup k items)
  unfolding assign
  lookup-assign k j v items = elim (Bool-cases (contains j items)) [
    | inl old ↦ rw old (lookup-update k j v items old)
    | inr new ↦ rw new (lookup-insert k j v items new)
  ]
