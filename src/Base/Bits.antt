-- ===== src/Base/Bits.antt =====
-- The binary digits of a word, and what `|` and `&` do to each of them.
pub mod Fields
use Prim.Native.Nat.{
  ℕ, zero, suc, ◌+◌, ◌*◌, ◌/◌, ◌%◌, ◌^◌, ◌≤◌, min, max, bit_and, bit_or, digits, bitwise,
  bit_and-bitwise, bit_or-bitwise,
}
use mathlib.Core.Path.{◌≡◌, refl, ap}
use mathlib.Core.Logic.{◌⊎◌, inl, inr}
use mathlib.Core.Bool.{Bool, not}
use native.Mathlib.Omega.{arith}
use native.Mathlib.Nat.{pow-suc, one-le-pow}
use ndk.Base.Tests.{◌==◌}

-- Digit `k` of `a`.
abbrev pub bit : ℕ → ℕ → ℕ
bit zero a = a % 2
bit (suc k) a = bit k (a / 2)

-- The native operations stand for a recursion on digits with fuel; any fuel from `a` on will do.
module _ (z : ℕ → ℕ) (f : ℕ → ℕ → ℕ) where
  digits_enough : (n m a b : ℕ) → a ≤ n → a ≤ m → digits z f n a b ≡ digits z f m a b
  digits_enough n m zero b p q = ends n m
    where
      ends : (n m : ℕ) → digits z f n zero b ≡ digits z f m zero b
      ends zero zero = refl
      ends zero (suc m) = refl
      ends (suc n) zero = refl
      ends (suc n) (suc m) = refl
  digits_enough zero m (suc a) b p q = absurd (omega arith)
  digits_enough (suc n) zero (suc a) b p q = absurd (omega arith)
  digits_enough (suc n) (suc m) (suc a) b p q =
      rw (digits_enough n m (suc a / 2) (b / 2) (omega arith) (omega arith))

  bitwise_low :
      (x y : ℕ)
      → bitwise z f (suc x) y ≡ bitwise z f (suc x / 2) (y / 2) * 2 + f (suc x % 2) (y % 2)
  bitwise_low x y =
      let half = suc x / 2 in
      omega (arith, digits_enough x half half (y / 2) (omega arith) (omega arith))

pub bit_and_low : (x y : ℕ) → bit_and x y ≡ bit_and (x / 2) (y / 2) * 2 + min (x % 2) (y % 2)
bit_and_low (suc x) y = simp bit_and-bitwise (bitwise_low (λ _. 0) min x y)
bit_and_low zero y = simp bit_and-bitwise (omega arith)

pub bit_or_low : (x y : ℕ) → bit_or x y ≡ bit_or (x / 2) (y / 2) * 2 + max (x % 2) (y % 2)
bit_or_low (suc x) y = simp bit_or-bitwise (bitwise_low (λ t. t) max x y)
bit_or_low zero y = simp bit_or-bitwise (omega arith)

bit_or_half : (a b : ℕ) → bit_or a b / 2 ≡ bit_or (a / 2) (b / 2)
bit_or_half a b = omega (arith, bit_or_low a b)

bit_and_half : (a b : ℕ) → bit_and a b / 2 ≡ bit_and (a / 2) (b / 2)
bit_and_half a b = omega (arith, bit_and_low a b)

pub bit-bit_or : (k a b : ℕ) → bit k (bit_or a b) ≡ max (bit k a) (bit k b)
bit-bit_or zero a b = omega (arith, bit_or_low a b)
bit-bit_or (suc k) a b = rw bit_or_half (bit-bit_or k (a / 2) (b / 2))

pub bit-bit_and : (k a b : ℕ) → bit k (bit_and a b) ≡ min (bit k a) (bit k b)
bit-bit_and zero a b = omega (arith, bit_and_low a b)
bit-bit_and (suc k) a b = rw bit_and_half (bit-bit_and k (a / 2) (b / 2))

pub bit-le-one : (k a : ℕ) → bit k a ≤ 1
bit-le-one zero a = omega arith
bit-le-one (suc k) a = bit-le-one k (a / 2)

pub bit-cases : (k a : ℕ) → (bit k a ≡ 0) ⊎ (bit k a ≡ 1)
bit-cases k a = omega (arith, bit-le-one k a)

pub bit-zero : (k : ℕ) → bit k 0 ≡ 0
bit-zero zero = refl
bit-zero (suc k) = bit-zero k

-- The digits of a power of two.
pub bit-pow_self : (k : ℕ) → bit k (2 ^ k) ≡ 1
bit-pow_self zero = refl
bit-pow_self (suc k) =
    let e : 2 ^ suc k / 2 ≡ 2 ^ k = omega (arith, pow-suc 2 k) in rw e (bit-pow_self k)

bit_and-zero_upto : (n a : ℕ) → a ≤ n → bit_and a 0 ≡ 0
bit_and-zero_upto n zero h = refl
bit_and-zero_upto zero (suc a) h = absurd (omega arith)
bit_and-zero_upto (suc n) (suc a) h =
    omega (arith, bit_and_low (suc a) 0, bit_and-zero_upto n (suc a / 2) (omega arith))

pub bit_and-zero : (a : ℕ) → bit_and a 0 ≡ 0
bit_and-zero a = bit_and-zero_upto a a (omega arith)

-- `a & (1 << k)` keeps the one digit.
pub bit_and-pow : (k a : ℕ) → bit_and a (2 ^ k) ≡ bit k a * 2 ^ k
bit_and-pow zero a = omega (arith, bit_and_low a 1, bit_and-zero (a / 2))
bit_and-pow (suc k) a =
    let e : 2 ^ suc k / 2 ≡ 2 ^ k = omega (arith, pow-suc 2 k) in
    omega (
      arith,
      bit_and_low a (2 ^ suc k),
      ap (bit_and (a / 2)) e,
      bit_and-pow k (a / 2),
      pow-suc 2 k,
      ap (λ (t : ℕ). bit k (a / 2) * t) (pow-suc 2 k),
    )

-- `a & (1 << k)` is nonzero exactly when digit `k` is set.
unfoldable pub test_bit : ℕ → ℕ → Bool
test_bit a flag = not (bit_and a flag == 0)

pub test_bit-pow : (k a : ℕ) → test_bit a (2 ^ k) ≡ (bit k a == 1)
unfolding test_bit
test_bit-pow k a = elim (bit-cases k a) [
  | inl e ↦ rw (bit_and-pow k a, e) (ground arith)
  | inr e ↦ rw (bit_and-pow k a, e) (ground (arith, one-le-pow k 2))
]
