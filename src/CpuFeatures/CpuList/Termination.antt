-- ===== src/CpuFeatures/CpuList/Termination.antt =====
-- When `cpulist_parse` of cpu-features.c returns.
use ndk.Base.{
  ℕ, zero, suc, ◌+◌, ◌-◌, ◌%◌, ◌^◌, ◌≤◌, ◌<◌, ◌≡◌, ◌⊎◌, refl, ◌∙◌, true, false, some, List, [], ◌∷◌,
  ◌++◌, Bytes, length, leb, ◌==◌, if◌then◌else◌, arith, Bool-cases, Option-cases, inl, inr,
}
use mathlib.Core.Path.{subst}
use ndk.Base.Checked.{Checked, ok, out_of_fuel}
use ndk.CpuFeatures.Number.{number_loop, parse_number}
use ndk.CpuFeatures.CpuList.{
  CpuList, biased, cpulist_set, range_loop, before_comma, from_comma, next_item, parse_item,
  parse_loop, cpulist_parse_within,
}
use ndk.CpuFeatures.CpuList.Mask.{set_loop, rounds, range_loop-set_loop, range_loop-out_of_fuel}
use ndk.CpuFeatures.CpuList.Parse.Notation.{
  Item, IsWritten, first, last, render_item, render_item-head, render_item-NoComma,
  parse_item-render,
}
use ndk.CpuFeatures.CpuList.Parse.Split.{before_comma-all, length-next_item, NoComma-append}
use ndk.CpuFeatures.CpuList.Parse.{parse_loop-item, parse_loop-EndsLine}

-- The parts of a line between its commas.
abbrev pub push : ℕ → List Bytes → List Bytes
push c [] = (c ∷ []) ∷ []
push c (part ∷ parts) = (c ∷ part) ∷ parts

abbrev pub split_commas : Bytes → List Bytes
split_commas [] = [] ∷ []
split_commas (c ∷ p) = if c == b',' then [] ∷ split_commas p else push c (split_commas p)

-- A part that is read as a range, or a number, up to the largest `int`.
abbrev pub IsUpToLast : Bytes → Type 0
IsUpToLast part =
    (start : ℕ) × (end_value : ℕ) × (parse_item part ≡ some (start, end_value))
    × (end_value % 2 ^ 32 ≡ 2 ^ 31 - 1)

abbrev pub HasUpToLast : List Bytes → Type 0
HasUpToLast [] = ⊥
HasUpToLast (part ∷ parts) = IsUpToLast part ⊎ HasUpToLast parts

-- Where the round's part ends, and the parts behind it.
split_commas-first :
    (p : Bytes)
    → ((from_comma p ≡ []) × (split_commas p ≡ before_comma p ∷ []))
      ⊎ (split_commas p ≡ before_comma p ∷ split_commas (next_item (from_comma p)))
split_commas-first [] = inl (refl, refl)
split_commas-first (c ∷ p) = elim (Bool-cases (c == b',')) [
  | inl comma ↦ inr (rw comma)
  | inr other ↦ elim (split_commas-first p) [
    | inl (e, parts) ↦ inl (rw (other, e), rw (other, parts))
    | inr parts ↦ inr (rw (other, parts))
  ]
]

range_loop-short :
    (f val end_value : ℕ) (list : CpuList)
    → biased end_value < 2 ^ 32 - 1
    → f ≤ rounds val end_value
    → range_loop f val end_value list ≡ out_of_fuel
unfolding range_loop
range_loop-short zero val end_value list last few = refl
range_loop-short (suc f) val end_value list last few =
    let inside : leb (biased val) (biased end_value) ≡ true = ground arith in
    rw (inside, range_loop)
      (range_loop-short f ((val + 1) % 2 ^ 32) end_value (cpulist_set list val) last (omega arith))

-- The loop over a range gives one list, or has too few rounds.
range_loop-cases :
    (f val end_value : ℕ) (list : CpuList)
    → biased end_value < 2 ^ 32 - 1
    → (range_loop f val end_value list ≡ ok (set_loop (rounds val end_value) val list))
      ⊎ (range_loop f val end_value list ≡ out_of_fuel)
range_loop-cases f val end_value list last = elim (Bool-cases (leb f (rounds val end_value))) [
  | inl few ↦ inr (range_loop-short f val end_value list last (ground arith))
  | inr enough ↦ inl (range_loop-set_loop f _ val end_value list refl (ground arith) last)
]

-- The parser returns, or it never does, which takes a part up to the largest `int`.
abbrev pub Ends : (ℕ → Checked CpuList) → Bytes → Type 0
Ends run line =
    ((read : CpuList) × (run (2 ^ 32) ≡ ok read))
    ⊎ (HasUpToLast (split_commas line) × ((n : ℕ) → run n ≡ out_of_fuel))

-- No part is left at the end of the line.
not-HasUpToLast-end : ¬ HasUpToLast (split_commas [])
unfolding parse_item parse_number number_loop
not-HasUpToLast-end (inl (start, end_value, item, e)) = cc
not-HasUpToLast-end (inr h) = h

-- A part that ends below the largest `int`, with what the rest of the line does.
parse_loop-next :
    (f : ℕ) (list : CpuList) (c : ℕ) (p : Bytes) (start end_value : ℕ)
    → (c == b'\n') ≡ false
    → parse_item (before_comma (c ∷ p)) ≡ some (start, end_value)
    → biased end_value < 2 ^ 32 - 1
    → (let q = next_item (from_comma (c ∷ p)) in
        Ends (λ n. parse_loop n f (set_loop (rounds start end_value) start list) q) q)
    → Ends (λ n. parse_loop n (suc f) list (c ∷ p)) (c ∷ p)
parse_loop-next f list c p start end_value more item low rest =
    let q = next_item (from_comma (c ∷ p)) in
    let step = λ (n : ℕ). parse_loop-item n f list (c ∷ p) p c start end_value refl more item in
    elim rest [
      | inl (read, e) ↦ inl (
        read,
        step (2 ^ 32)
            ∙ rw (range_loop-set_loop (2 ^ 32) _ start end_value list refl (omega arith) low) e,
      )
      | inr (has, never) ↦ inr (
        elim (split_commas-first (c ∷ p)) [
          | inl (e, parts) ↦
              absurd
                (not-HasUpToLast-end (subst (λ t. HasUpToLast (split_commas (next_item t))) e has))
          | inr parts ↦ rw parts (inr has)
        ],
        λ n. step n ∙ elim (range_loop-cases n start end_value list low) [
          | inl e ↦ rw e (never n)
          | inr e ↦ rw e refl
        ],
      )
    ]

parse_loop-Ends :
    (f : ℕ) (list : CpuList) (p : Bytes) → length p < f → Ends (λ n. parse_loop n f list p) p
parse_loop-Ends zero list p h = absurd (omega arith)
parse_loop-Ends (suc f) list [] h = inl (list, parse_loop-EndsLine (2 ^ 32) f list [] tt)
parse_loop-Ends (suc f) list (c ∷ p) h = elim (Bool-cases (c == b'\n')) [
  | inl end ↦ inl (list, unfold parse_loop in rw (end, parse_loop) refl)
  | inr more ↦ elim (Option-cases (parse_item (before_comma (c ∷ p)))) [
    | inl bad ↦ inl (list, unfold parse_loop in rw (more, parse_loop) (rw (bad, parse_loop) refl))
    | inr ((start, end_value), item) ↦ elim (Bool-cases (end_value % 2 ^ 32 == 2 ^ 31 - 1)) [
      | inr low ↦ parse_loop-next f list c p start end_value more item (ground arith) (
          parse_loop-Ends f _ (next_item (from_comma (c ∷ p)))
            (omega (arith, length-next_item c p)))
      | inl up_to_last ↦ inr (
        elim (split_commas-first (c ∷ p)) [
          | inl (e, parts) ↦ rw parts (inl (start, end_value, item, ground arith))
          | inr parts ↦ rw parts (inl (start, end_value, item, ground arith))
        ],
        λ n.
            parse_loop-item n f list (c ∷ p) p c start end_value refl more item
            ∙ rw (range_loop-out_of_fuel n start end_value list (ground arith)) refl,
      )
    ]
  ]
]

-- Whatever the line holds, the parser returns a list, where the loops over a range have a round for
-- each `int`; or one of the line's parts between commas is read as a number or a range up to the
-- largest `int`, and no number of rounds makes the parser return.
pub cpulist_parse-Ends :
    (list : CpuList) (line : Bytes) → Ends (λ n. cpulist_parse_within n list line) line
unfolding cpulist_parse_within
cpulist_parse-Ends list line = parse_loop-Ends _ list line (omega arith)

-- A line whose only item is a number or a range up to the largest `int`, in the kernel's notation,
-- is never read to its end: no number of rounds is enough for the loop over it.
pub cpulist_parse-endless :
    (n : ℕ) (list : CpuList) (x : Item)
    → IsWritten x
    → last x ≡ 2 ^ 31 - 1
    → cpulist_parse_within n list (render_item x ++ []) ≡ out_of_fuel
unfolding cpulist_parse_within
cpulist_parse-endless n list x v e =
    let (c, q, split, h) = render_item-head x [] v in
    let whole = NoComma-append (render_item x) [] (render_item-NoComma x v) tt in
    parse_loop-item n _ list (render_item x ++ []) q c (first x) (last x) split h
      (rw (before_comma-all (render_item x ++ []) whole) (parse_item-render x [] v tt))
    ∙ rw (range_loop-out_of_fuel n (first x) (last x) list (omega (arith, e))) refl
