-- ===== src/CpuFeatures/CpuList.antt =====
-- `CpuList` of cpu-features.c: a mask of 32 CPUs, and the parser of the kernel's CPU lists.
pub mod Mask
pub mod Parse
pub mod Termination
use ndk.Base.{
  ℕ, zero, suc, ◌+◌, ◌%◌, ◌^◌, true, false, Option, none, some, [], ◌∷◌, Bytes, length, ltb, leb,
  ◌==◌, if◌then◌else◌, bit_and, bit_or,
}
use ndk.Base.Checked.{Checked, ok, out_of_fuel, ◌>>=◌}
use ndk.Base.Bits.{bit}
use ndk.CpuFeatures.Number.{parse_decimal}

-- `struct CpuList`
pub record CpuList : Type 0 where
  pub mask : ℕ

abbrev pub cpulist_init : CpuList
cpulist_init = record { mask = 0 }

unfoldable pub cpulist_and : CpuList → CpuList → CpuList
cpulist_and list1 list2 = record { mask = bit_and list1.mask list2.mask }

-- `index` is the bit pattern of the `int`.
unfoldable pub cpulist_set : CpuList → ℕ → CpuList
cpulist_set list index =
    if ltb index 32 then record { mask = bit_or list.mask (2 ^ index) } else list

-- `__builtin_popcount`: the sum of the digits below `k`.
abbrev pub popcount : ℕ → ℕ → ℕ
popcount zero mask = 0
popcount (suc k) mask = popcount k mask + bit k mask

unfoldable pub cpulist_count : CpuList → ℕ
cpulist_count list = popcount 32 list.mask

-- The order of two bit patterns as `int`s is that of their sums with 2 ^ 31.
abbrev pub biased : ℕ → ℕ
biased n = (n + 2 ^ 31) % 2 ^ 32

-- The loop `for (val = start_value; val <= end_value; val++)`, on fuel, with the value that `val++`
-- has when it wraps.
unfoldable pub range_loop : ℕ → ℕ → ℕ → CpuList → Checked CpuList
range_loop zero val end_value list = out_of_fuel
range_loop (suc f) val end_value list = elim (leb (biased val) (biased end_value)) [
  | true ↦ range_loop f ((val + 1) % 2 ^ 32) end_value (cpulist_set list val)
  | false ↦ ok list
]

-- `q = memchr(p, ',', end-p)`, or `end`: the bytes before `q`, and those from `q` on.
abbrev pub before_comma : Bytes → Bytes
before_comma [] = []
before_comma (c ∷ p) = if c == b',' then [] else c ∷ before_comma p

abbrev pub from_comma : Bytes → Bytes
from_comma [] = []
from_comma (c ∷ p) = if c == b',' then c ∷ p else from_comma p

-- `p = q; if (p < end) p++;`
abbrev pub next_item : Bytes → Bytes
next_item [] = []
next_item (c ∷ p) = p

-- `end_value`, at the position behind `start_value`; `none` is the jump to BAD_FORMAT.
unfoldable pub parse_end : ℕ → Bytes → Option ℕ
parse_end start [] = some start
parse_end start (c ∷ p) =
    if c == b'-'
    then (elim (parse_decimal p) [ none ↦ none | some (end_value, _) ↦ some end_value ])
    else some start

-- `start_value` and `end_value` of an item.
unfoldable pub parse_item : Bytes → Option (ℕ × ℕ)
parse_item item = elim (parse_decimal item) [
  | none ↦ none
  | some (start, p) ↦ elim (parse_end start p) [
    | none ↦ none
    | some end_value ↦ some (start, end_value)
  ]
]

-- The `while` loop, on fuel, with a number of rounds for the loop over a range. A badly formed item
-- ends it, and what was set so far stays.
unfoldable pub parse_loop : ℕ → ℕ → CpuList → Bytes → Checked CpuList
parse_loop n zero list p = out_of_fuel
parse_loop n (suc f) list [] = ok list
parse_loop n (suc f) list (c ∷ p) = elim (c == b'\n') [
  | true ↦ ok list
  | false ↦ elim (parse_item (before_comma (c ∷ p))) [
    | none ↦ ok list
    | some (start, end_value) ↦ range_loop n start end_value list >>= λ list'.
        parse_loop n f list' (next_item (from_comma (c ∷ p)))
  ]
]

-- Each round takes at least one byte, so there are at most as many as bytes.
unfoldable pub cpulist_parse_within : ℕ → CpuList → Bytes → Checked CpuList
cpulist_parse_within n list line = parse_loop n (suc (length line)) list line

-- With a round for each `int`.
unfoldable pub cpulist_parse : CpuList → Bytes → Checked CpuList
cpulist_parse list line = cpulist_parse_within (2 ^ 32) list line
