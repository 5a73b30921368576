-- ===== src/CpuFeatures/Number.antt =====
-- `parse_number`, `parse_decimal` and `parse_hexadecimal` of cpu-features.c. The bytes between
-- `input` and `limit` are a list, and a position in them is the list that is left. `*result` is the
-- bit pattern of an `int`; its overflow, which the source ignores, wraps.
pub mod Laws
use ndk.Base.{
  ℕ, ◌+◌, ◌-◌, ◌*◌, ◌%◌, ◌^◌, Bool, Option, none, some, List, [], ◌∷◌, Bytes, length, ltb, leb,
  ◌==◌, if◌then◌else◌,
}

-- `(unsigned)(c - k)`
abbrev pub unsigned_sub : ℕ → ℕ → ℕ
unsigned_sub c k = (c + 2 ^ 32 - k) % 2 ^ 32

-- `d` once `*p - '0'` is out of range: a letter of either case.
letter : ℕ → ℕ
letter c = let d = unsigned_sub c b'a' in if ltb d 6 then d else unsigned_sub c b'A'

below : ℕ → ℕ → Option ℕ
below base d = if leb base d then none else some d

-- `d` of one round of the loop, or `none` for a `break`.
unfoldable pub digit : ℕ → ℕ → Option ℕ
unfolding letter below
digit base c =
    if ltb (unsigned_sub c b'0') 10
    then below base (unsigned_sub c b'0')
    else if ltb (letter c) 6
    then below base (letter c + 10)
    else none

unfoldable pub number_loop : ℕ → ℕ → Bytes → ℕ × Bytes
number_loop base val [] = (val, [])
number_loop base val (c ∷ p) = elim (digit base c) [
  | none ↦ (val, c ∷ p)
  | some d ↦ number_loop base ((val * base + d) % 2 ^ 32) p
]

-- `none` is NULL; otherwise `*result`, and the new position.
unfoldable pub parse_number : ℕ → Bytes → Option (ℕ × Bytes)
parse_number base input =
    let (val, p) = number_loop base 0 input in
    if length p == length input then none else some (val, p)

abbrev pub parse_decimal : Bytes → Option (ℕ × Bytes)
parse_decimal = parse_number 10

abbrev pub parse_hexadecimal : Bytes → Option (ℕ × Bytes)
parse_hexadecimal = parse_number 16
