-- ===== src/CpuFeatures/CpuList/Parse/Split.antt =====
-- Where `cpulist_parse` of cpu-features.c finds the next comma.
use ndk.Base.{ℕ, ◌≤◌, ◌≡◌, refl, ap, false, [], ◌∷◌, ◌++◌, Bytes, length, All, ◌==◌, arith}
use ndk.CpuFeatures.CpuList.{before_comma, from_comma, next_item}

abbrev pub NoComma : Bytes → Type 0
NoComma p = All (λ c. (c == b',') ≡ false) p

pub NoComma-append : (p q : Bytes) → NoComma p → NoComma q → NoComma (p ++ q)
NoComma-append [] q a b = b
NoComma-append (c ∷ p) q a b = (a.0, NoComma-append p q a.1 b)

pub before_comma-cons : (p q : Bytes) → NoComma p → before_comma (p ++ b',' ∷ q) ≡ p
before_comma-cons [] q h = refl
before_comma-cons (c ∷ p) q h = rw h.0 (ap (◌∷◌ c) (before_comma-cons p q h.1))

pub from_comma-cons : (p q : Bytes) → NoComma p → from_comma (p ++ b',' ∷ q) ≡ b',' ∷ q
from_comma-cons [] q h = refl
from_comma-cons (c ∷ p) q h = rw h.0 (from_comma-cons p q h.1)

pub before_comma-all : (p : Bytes) → NoComma p → before_comma p ≡ p
before_comma-all [] h = refl
before_comma-all (c ∷ p) h = rw h.0 (ap (◌∷◌ c) (before_comma-all p h.1))

pub from_comma-all : (p : Bytes) → NoComma p → from_comma p ≡ []
from_comma-all [] h = refl
from_comma-all (c ∷ p) h = rw h.0 (from_comma-all p h.1)

-- The rest of the loop has fewer bytes.
pub length-next_item : (c : ℕ) (p : Bytes) → length (next_item (from_comma (c ∷ p))) ≤ length p
length-next_item c [] = ground arith
length-next_item c (d ∷ p) = ground (arith, length-next_item d p)
