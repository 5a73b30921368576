-- ===== src/Base/CString/Decimal.antt =====
-- Numbers as `%d` prints them, and `strtol` on them.
use Prim.Native.Nat.{ℕ, zero, suc, ◌+◌, ◌-◌, ◌*◌, ◌/◌, ◌%◌, ◌^◌, ◌≤◌, ◌<◌, min}
use mathlib.Core.Path.{◌≡◌, refl, ap, ◌∙◌}
use mathlib.Core.Logic.{◌≢◌, inl, inr}
use mathlib.Core.Bool.{true, false}
use mathlib.Core.List.{[], ◌∷◌, ◌++◌}
use native.Mathlib.Omega.{arith}
use native.Mathlib.Nat.{pow-suc}
use ndk.Base.Tests.{ltb, ◌==◌, if◌then◌else◌, Bool-cases}
use ndk.Base.Lists.{Bytes, All, equal, length, length-append}
use ndk.Base.CString.{pos, is_decimal, is_space, decimal_prefix, strtol}

-- The digits of a number, on fuel.
unfoldable pub print_loop : ℕ → ℕ → Bytes
print_loop zero n = []
print_loop (suc f) n =
    let high = print_loop f (n / 10) in (if ltb n 10 then [] else high) ++ (b'0' + n % 10) ∷ []

unfoldable pub print_decimal : ℕ → Bytes
print_decimal n = print_loop (suc n) n

abbrev AreDigits : Bytes → Type 0
AreDigits = All (λ c. is_decimal c ≡ true)

digit-is_decimal : (n : ℕ) → is_decimal (b'0' + n % 10) ≡ true
digit-is_decimal n = ground arith

AreDigits-append : (s : Bytes) (c : ℕ) → AreDigits s → is_decimal c ≡ true → AreDigits (s ++ c ∷ [])
AreDigits-append [] c h e = (e, tt)
AreDigits-append (d ∷ s) c h e = (h.0, AreDigits-append s c h.1 e)

print_loop-AreDigits : (f n : ℕ) → AreDigits (print_loop f n)
unfolding print_loop
print_loop-AreDigits zero n = tt
print_loop-AreDigits (suc f) n = elim (Bool-cases (ltb n 10)) [
  | inl e ↦ rw e (digit-is_decimal n, tt)
  | inr e ↦ rw e (
      AreDigits-append (print_loop f (n / 10)) (b'0' + n % 10) (print_loop-AreDigits f (n / 10))
        (digit-is_decimal n))
]

decimal_prefix-append :
    (val : ℕ) (s : Bytes) (c : ℕ)
    → AreDigits s
    → is_decimal c ≡ true
    → decimal_prefix val (s ++ c ∷ []) ≡ decimal_prefix val s * 10 + (c - b'0')
unfolding decimal_prefix
decimal_prefix-append val [] c h e = rw e
decimal_prefix-append val (d ∷ s) c h e =
    rw (h.0) (decimal_prefix-append (val * 10 + (d - b'0')) s c h.1 e)

decimal_prefix-print : (f n : ℕ) → n < f → decimal_prefix 0 (print_loop f n) ≡ n
unfolding print_loop decimal_prefix
decimal_prefix-print zero n h = elim h [ ]
decimal_prefix-print (suc f) n h = elim (Bool-cases (ltb n 10)) [
  | inl e ↦ rw (e, digit-is_decimal n) (ground arith)
  | inr e ↦ rw e (
      decimal_prefix-append 0 (print_loop f (n / 10)) (b'0' + n % 10)
        (print_loop-AreDigits f (n / 10)) (digit-is_decimal n)
      ∙ (let high = decimal_prefix-print f (n / 10) (ground arith) in omega (arith, high)))
]

-- A text of digits is a number without a sign.
strtol-AreDigits :
    (s : Bytes)
    → AreDigits s
    → s ≢ []
    → (strtol s).value ≡ pos (min (decimal_prefix 0 s) (2 ^ 31 - 1))
unfolding strtol
strtol-AreDigits [] h nonempty = absurd (nonempty refl)
strtol-AreDigits (c ∷ s) h nonempty =
    let first = h.0 in
    let space : is_space c ≡ false = ground arith in
    let minus : (c == b'-') ≡ false = ground arith in
    let plus : (c == b'+') ≡ false = ground arith in rw (space, minus, plus)

append-ne-nil : (s : Bytes) (c : ℕ) → (s ++ c ∷ []) ≢ []
append-ne-nil [] c e = cc
append-ne-nil (d ∷ s) c e = cc

-- A number below 2 ^ 31 is read back.
pub strtol-print_decimal : (n : ℕ) → n < 2 ^ 31 → (strtol (print_decimal n)).value ≡ pos n
unfolding print_decimal print_loop
strtol-print_decimal n h =
    strtol-AreDigits (print_decimal n) (print_loop-AreDigits (suc n) n)
      (append-ne-nil (if ltb n 10 then [] else print_loop n (n / 10)) (b'0' + n % 10))
    ∙ ap (λ (t : ℕ). pos (min t (2 ^ 31 - 1))) (decimal_prefix-print (suc n) n (omega arith))
    ∙ ap pos (omega arith)

length-print_loop : (k f n : ℕ) → n < 10 ^ suc k → length (print_loop f n) ≤ suc k
unfolding print_loop
length-print_loop k zero n h = omega arith
length-print_loop zero (suc f) n h =
    let low : ltb n 10 ≡ true = ground arith in rw low (omega arith)
length-print_loop (suc k) (suc f) n h = elim (Bool-cases (ltb n 10)) [
  | inl e ↦ rw e (omega arith)
  | inr e ↦
      let shorter = length-print_loop k f (n / 10) (omega (arith, pow-suc 10 (suc k))) in
      rw e (omega (arith, shorter, length-append (print_loop f (n / 10)) ((b'0' + n % 10) ∷ [])))
]

pub length-print_decimal : (n : ℕ) → n < 2 ^ 31 → length (print_decimal n) ≤ 10
unfolding print_decimal
length-print_decimal n h = length-print_loop 9 (suc n) n (omega arith)

-- A number's text does not start with a dot.
pub print_decimal-first : (n : ℕ) (s : Bytes) → equal (print_decimal n) (b'.' ∷ s) ≡ false
unfolding print_decimal print_loop
print_decimal-first n s = no_dot (print_decimal n) (print_loop-AreDigits (suc n) n)
  where
    no_dot : (t : Bytes) → AreDigits t → equal t (b'.' ∷ s) ≡ false
    no_dot [] h = refl
    no_dot (c ∷ t) h = let first = h.0 in ground arith
