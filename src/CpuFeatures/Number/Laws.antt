-- ===== src/CpuFeatures/Number/Laws.antt =====
-- What `parse_number` of cpu-features.c reads from a text, against positional notation.
use native.Mathlib.Nat.{pow-zero, pow-suc, mod-add-div}
use ndk.Base.{
  ℕ, ◌+◌, ◌-◌, ◌*◌, ◌%◌, ◌^◌, ◌≤◌, ◌<◌, ◌≡◌, ◌↔◌, refl, ap, none, some, List, [], ◌∷◌, ◌++◌, Bytes,
  length, length-append, All, Option-cases, inl, inr, ltb, if◌then◌else◌, arith,
}
use ndk.CpuFeatures.Number.{digit, number_loop, parse_number}

-- The character of a digit, in lower case.
abbrev pub digit_char : ℕ → ℕ
digit_char d = if ltb d 10 then b'0' + d else b'a' + (d - 10)

abbrev pub digit_chars : List ℕ → Bytes
digit_chars [] = []
digit_chars (d ∷ ds) = digit_char d ∷ digit_chars ds

-- Positional notation, the highest digit first.
abbrev pub place_value : ℕ → List ℕ → ℕ
place_value base [] = 0
place_value base (d ∷ ds) = d * base ^ length ds + place_value base ds

-- No digit stands at the head.
abbrev pub Stops : ℕ → Bytes → Type 0
Stops base [] = Unit
Stops base (c ∷ _) = digit base c ≡ none

digit-digit_char : (base d : ℕ) → base ≤ 16 → d < base → digit base (digit_char d) ≡ some d
unfolding digit
digit-digit_char base d h lt = ground arith

number_loop-Stops :
    (base val : ℕ) (rest : Bytes) → Stops base rest → number_loop base val rest ≡ (val, rest)
unfolding number_loop
number_loop-Stops base val [] s = refl
number_loop-Stops base val (c ∷ p) s = rw (s, number_loop) refl

number_loop-some :
    (base val c d : ℕ) (p : Bytes)
    → digit base c ≡ some d
    → number_loop base val (c ∷ p) ≡ number_loop base ((val * base + d) % 2 ^ 32) p
unfolding number_loop
number_loop-some base val c d p e = rw (e, number_loop) refl

mul-add-mod_word : (x y z : ℕ) → (x % 2 ^ 32 * y + z) % 2 ^ 32 ≡ (x * y + z) % 2 ^ 32
mul-add-mod_word x y z = omega (arith, ap (λ (t : ℕ). t * y) (mod-add-div x (2 ^ 32)))

number_loop-digits :
    (base val : ℕ) (ds : List ℕ) (rest : Bytes)
    → base ≤ 16
    → All (λ d. d < base) ds
    → Stops base rest
    → number_loop base (val % 2 ^ 32) (digit_chars ds ++ rest)
      ≡ ((val * base ^ length ds + place_value base ds) % 2 ^ 32, rest)
unfolding number_loop
number_loop-digits base val [] rest h all s =
    rw (number_loop-Stops base _ rest s) (ground (arith, ap (λ (t : ℕ). val * t) (pow-zero base)))
number_loop-digits base val (d ∷ ds) rest h all s =
    rw (digit-digit_char base d h all.0, number_loop, mul-add-mod_word val base d)
      (rw (number_loop-digits base (val * base + d) ds rest h all.1 s)
        (ground (arith, ap (λ (t : ℕ). val * t) (pow-suc base (length ds)))))

length-number_loop : (base val : ℕ) (p : Bytes) → length (number_loop base val p).1 ≤ length p
unfolding number_loop
length-number_loop base val [] = omega arith
length-number_loop base val (c ∷ p) = elim (Option-cases (digit base c)) [
  | inl e ↦ rw (e, number_loop) (omega arith)
  | inr (d, e) ↦
      rw (e, number_loop) (omega (arith, length-number_loop base ((val * base + d) % 2 ^ 32) p))
]

-- In a base of at most 16, one or more digits below the base, with letters in lower case, and
-- then the end or anything that is no digit, are read as the value in positional notation modulo
-- 2 ^ 32, and the position behind the last digit is returned.
pub parse_number-digits :
    (base d : ℕ) (ds : List ℕ) (rest : Bytes)
    → base ≤ 16
    → All (λ e. e < base) (d ∷ ds)
    → Stops base rest
    → parse_number base (digit_chars (d ∷ ds) ++ rest)
      ≡ some (place_value base (d ∷ ds) % 2 ^ 32, rest)
unfolding parse_number
parse_number-digits base d ds rest h all s =
    rw (number_loop-digits base 0 (d ∷ ds) rest h all s)
      (ground (arith, length-append {0} (digit_chars ds) rest))

-- The bad format is reported exactly when no digit stands at the head.
parse_number-eq-none :
    (base : ℕ) (input : Bytes) → (parse_number base input ≡ none) ↔ Stops base input
unfolding parse_number
parse_number-eq-none base [] = (λ _. tt, λ _. rw (number_loop-Stops base 0 [] tt) refl)
parse_number-eq-none base (c ∷ p) = elim (Option-cases (digit base c)) [
  | inl e ↦ (λ _. e, λ _. rw (number_loop-Stops base 0 (c ∷ p) e) (ground arith))
  | inr (d, e) ↦
      ground (
        arith,
        number_loop-some base 0 c d p e,
        length-number_loop base ((0 * base + d) % 2 ^ 32) p,
      )
]
