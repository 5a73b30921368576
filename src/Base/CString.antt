-- ===== src/Base/CString.antt =====
-- What the sources use of the C library's text functions, on lists of bytes.
pub mod Decimal
use Prim.Native.Nat.{ℕ, zero, suc, ◌+◌, ◌-◌, ◌*◌, ◌^◌, min}
use mathlib.Core.Bool.{Bool, true, false, ◌&&◌, ◌||◌}
use mathlib.Core.List.{[], ◌∷◌}
use ndk.Base.Tests.{leb, ◌==◌, if◌then◌else◌}
use ndk.Base.Lists.{Bytes}

-- A C string ends at its first NUL.
abbrev pub c_string : Bytes → Bytes
c_string [] = []
c_string (c ∷ s) = if c == 0 then [] else c ∷ c_string s

-- `strncmp(s, prefix, strlen(prefix)) == 0`
abbrev pub starts_with : Bytes → Bytes → Bool
starts_with [] s = true
starts_with (x ∷ prefix) [] = false
starts_with (x ∷ prefix) (c ∷ s) = x == c && starts_with prefix s

-- An `int` or `long`; `negsuc n` is -(n + 1).
pub data ℤ : Type 0 where
  pos : ℕ → ℤ
  negsuc : ℕ → ℤ

-- `n <= z`
abbrev pub at_least : ℕ → ℤ → Bool
at_least n (pos z) = leb n z
at_least n (negsuc z) = false

-- `strtol(s, &end, 10)` with a `long` of 32 bits, and whether `end > s`.
pub record Strtol : Type 0 where
  pub value : ℤ
  pub moved : Bool

abbrev is_space : ℕ → Bool
is_space c = c == b' ' || (leb 9 c && leb c 13)

abbrev is_decimal : ℕ → Bool
is_decimal c = leb b'0' c && leb c b'9'

decimal_prefix : ℕ → Bytes → ℕ
decimal_prefix val [] = val
decimal_prefix val (c ∷ s) = if is_decimal c then decimal_prefix (val * 10 + (c - b'0')) s else val

skip_space : Bytes → Bytes
skip_space [] = []
skip_space (c ∷ s) = if is_space c then skip_space s else c ∷ s

starts_decimal : Bytes → Bool
starts_decimal [] = false
starts_decimal (c ∷ s) = is_decimal c

-- The magnitude is cut to the range of a `long`.
positive : Bytes → Strtol
positive s = record {
  value = pos (min (decimal_prefix 0 s) (2 ^ 31 - 1));
  moved = starts_decimal s;
}

negative : Bytes → Strtol
negative s = record {
  value = elim (min (decimal_prefix 0 s) (2 ^ 31)) [ zero ↦ pos 0 | suc n ↦ negsuc n ];
  moved = starts_decimal s;
}

signed : Bytes → Strtol
signed [] = positive []
signed (c ∷ s) =
    if c == b'-' then negative s else if c == b'+' then positive s else positive (c ∷ s)

unfoldable pub strtol : Bytes → Strtol
unfolding decimal_prefix skip_space starts_decimal positive negative signed
strtol s = signed (skip_space s)
