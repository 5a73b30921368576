-- ===== src/NdkDepends/Dictionary.antt =====
-- A std::map whose keys are strings, as what ndk-depends.cc uses of it: the list of its items by
-- key. A key stands in it once.
pub mod Laws
use ndk.Base.{
  ℕ, Bool, true, false, ◌||◌, Option, none, some, List, [], ◌∷◌, Bytes, equal, ltb, ◌==◌,
  if◌then◌else◌,
}

-- `a < b` on strings.
abbrev pub less : Bytes → Bytes → Bool
less a [] = false
less [] (y ∷ b) = true
less (x ∷ a) (y ∷ b) = if x == y then less a b else ltb x y

module _ {ℓ} {V : Type ℓ} where
  -- `map.find(key) != map.end()`
  unfoldable pub contains : Bytes → List (Bytes × V) → Bool
  contains k [] = false
  contains k ((j, v) ∷ items) = equal j k || contains k items

  unfoldable pub lookup : Bytes → List (Bytes × V) → Option V
  lookup k [] = none
  lookup k ((j, v) ∷ items) = if equal j k then some v else lookup k items

  -- A new key goes before the first one that is greater.
  unfoldable pub insert : Bytes → V → List (Bytes × V) → List (Bytes × V)
  insert k v [] = (k, v) ∷ []
  insert k v ((j, w) ∷ items) =
      if less k j then (k, v) ∷ (j, w) ∷ items else (j, w) ∷ insert k v items

  unfoldable pub update : Bytes → (V → V) → List (Bytes × V) → List (Bytes × V)
  update k f [] = []
  update k f ((j, v) ∷ items) = (if equal j k then (j, f v) else (j, v)) ∷ update k f items

  -- `f` on `map[key]`, which is `start` where the key is new.
  unfoldable pub modify : Bytes → V → (V → V) → List (Bytes × V) → List (Bytes × V)
  modify k start f items = if contains k items then update k f items else insert k (f start) items

  -- `map[key] = v`
  unfoldable pub assign : Bytes → V → List (Bytes × V) → List (Bytes × V)
  assign k v items = if contains k items then update k (λ _. v) items else insert k v items

  unfoldable pub erase : Bytes → List (Bytes × V) → List (Bytes × V)
  erase k [] = []
  erase k ((j, v) ∷ items) = if equal j k then erase k items else (j, v) ∷ erase k items
