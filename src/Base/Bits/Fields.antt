-- ===== src/Base/Bits/Fields.antt =====
-- Words made of fields: `|` of disjoint ones is a sum, and `&` with a mask of low ones a remainder.
use Prim.Native.Nat.{
  ℕ, zero, suc, ◌+◌, ◌-◌, ◌*◌, ◌/◌, ◌%◌, ◌^◌, ◌≤◌, ◌<◌, bit_and, bit_or, bit_or-bitwise,
}
use mathlib.Core.Path.{◌≡◌, refl, sym, ap, ◌∙◌}
use native.Mathlib.Omega.{arith}
use native.Mathlib.Nat.{
  pow-suc, one-le-pow, add-mul-mod_self_left, mod-eq_of_lt, mod-lt, mod-add-div,
}
use ndk.Base.Bits.{bit_or_low, bit_and_low, bit_and-zero}

bit_or-zero_upto : (n a : ℕ) → a ≤ n → bit_or a 0 ≡ a
bit_or-zero_upto n zero h = refl
bit_or-zero_upto zero (suc a) h = absurd (omega arith)
bit_or-zero_upto (suc n) (suc a) h =
    omega (arith, bit_or_low (suc a) 0, bit_or-zero_upto n (suc a / 2) (omega arith))

pub bit_or-zero : (a : ℕ) → bit_or a 0 ≡ a
bit_or-zero a = bit_or-zero_upto a a (omega arith)

double-pow : (q k : ℕ) → q * 2 ^ suc k ≡ 2 * (q * 2 ^ k)
double-pow q k = omega (arith, ap (λ (t : ℕ). q * t) (pow-suc 2 k))

half-double : (q k : ℕ) → q * 2 ^ suc k / 2 ≡ q * 2 ^ k
half-double q k = omega (arith, double-pow q k)

pub bit_or-disjoint : (k q r : ℕ) → r < 2 ^ k → bit_or (q * 2 ^ k) r ≡ q * 2 ^ k + r
bit_or-disjoint zero q r h = let e : r ≡ 0 = omega arith in rw e (bit_or-zero (q * 1) ∙ omega arith)
bit_or-disjoint (suc k) q r h =
    let rest : r / 2 < 2 ^ k = omega (arith, pow-suc 2 k) in
    omega (
      arith,
      bit_or_low (q * 2 ^ suc k) r,
      ap (λ (t : ℕ). bit_or t (r / 2)) (half-double q k),
      double-pow q k,
      bit_or-disjoint k q (r / 2) rest,
    )

bit_or_zero : (b : ℕ) → bit_or 0 b ≡ b
bit_or_zero b = simp bit_or-bitwise

bit_or_comm_upto : (n a b : ℕ) → a ≤ n → bit_or a b ≡ bit_or b a
bit_or_comm_upto n zero b h = bit_or_zero b ∙ sym (bit_or-zero b)
bit_or_comm_upto zero (suc a) b h = absurd (omega arith)
bit_or_comm_upto (suc n) (suc a) b h = omega (
  arith,
  bit_or_low (suc a) b,
  bit_or_low b (suc a),
  bit_or_comm_upto n (suc a / 2) (b / 2) (omega arith),
)

pub bit_or_above : (k q r : ℕ) → r < 2 ^ k → bit_or r (q * 2 ^ k) ≡ q * 2 ^ k + r
bit_or_above k q r h = bit_or_comm_upto r r (q * 2 ^ k) (omega arith) ∙ bit_or-disjoint k q r h

mod-double : (a m : ℕ) → 0 < m → a % (2 * m) ≡ 2 * (a / 2 % m) + a % 2
mod-double a m pos =
    let low = 2 * (a / 2 % m) + a % 2 in
    let split : a ≡ low + 2 * m * (a / 2 / m) =
      omega (arith, mod-add-div (a / 2) m, ap (λ (t : ℕ). 2 * t) (mod-add-div (a / 2) m)) in
    ap (λ (t : ℕ). t % (2 * m)) split
    ∙ add-mul-mod_self_left low (2 * m) (a / 2 / m)
    ∙ mod-eq_of_lt (omega (arith, mod-lt (a / 2) pos))

pub bit_and-mask : (k a : ℕ) → bit_and a (2 ^ k - 1) ≡ a % 2 ^ k
bit_and-mask zero a = rw (bit_and-zero a) (omega arith)
bit_and-mask (suc k) a =
    let double : 2 ^ suc k ≡ 2 * 2 ^ k = omega (arith, pow-suc 2 k) in
    let half : (2 ^ suc k - 1) / 2 ≡ 2 ^ k - 1 = omega (arith, pow-suc 2 k, one-le-pow k 2) in
    omega (
      arith,
      bit_and_low a (2 ^ suc k - 1),
      ap (bit_and (a / 2)) half,
      bit_and-mask k (a / 2),
      ap (λ (t : ℕ). a % t) double,
      mod-double a (2 ^ k) (one-le-pow k 2 (omega arith)),
      one-le-pow k 2,
      pow-suc 2 k,
    )
