-- ===== src/CpuFeatures/CpuList/Parse.antt =====
-- `cpulist_parse` of cpu-features.c against the kernel's notation for lists of CPUs.
pub mod Split
pub mod Notation
use ndk.Base.{
  ℕ, zero, suc, ◌+◌, ◌-◌, ◌%◌, ◌^◌, ◌≤◌, ◌<◌, ◌≡◌, ◌⊎◌, refl, ap, ◌∙◌, Bool, true, false, ◌&&◌,
  ◌||◌, Option, none, some, List, [], ◌∷◌, ◌++◌, Bytes, length, length-append, All, ltb, leb, ◌==◌,
  if◌then◌else◌, arith, append_assoc, append-nil, Bool-cases, Option-cases, inl, inr,
}
use ndk.CpuFeatures.Number.Laws.{digit_char, digit_chars, place_value, Stops, parse_number-digits}
use ndk.CpuFeatures.Number.{digit, parse_decimal}
use ndk.CpuFeatures.CpuList.{
  CpuList, range_loop, before_comma, from_comma, next_item, parse_end, parse_item, parse_loop,
  cpulist_parse_within, cpulist_parse,
}
use ndk.CpuFeatures.CpuList.Parse.Notation.{
  IsNumber, Item, single, range, IsWritten, IsItem, render_item, render, first, last, covered,
  EndsLine, parse_item-render, parse_end-EndsLine, dash-Stops, parse-IsNumber, digit_chars-NoComma,
  render_item-NoComma, EndsLine-NoComma, render_item-head, digit_chars-head, IsNumber-NoComma,
}
use ndk.Base.Checked.{Checked, ok, ◌>>=◌}
use ndk.CpuFeatures.CpuList.Mask.{has_cpu, set_loop, rounds, has_cpu-set_loop, range_loop-set_loop}
use ndk.CpuFeatures.CpuList.Parse.Split.{
  NoComma, before_comma-cons, from_comma-cons, before_comma-all, from_comma-all, length-next_item,
  NoComma-append,
}

-- One round over text that begins with a well-formed item.
pub parse_loop-item :
    (n f : ℕ) (list : CpuList) (p q : Bytes) (c start end_value : ℕ)
    → p ≡ c ∷ q
    → (c == b'\n') ≡ false
    → parse_item (before_comma p) ≡ some (start, end_value)
    → parse_loop n (suc f) list p
      ≡ (range_loop n start end_value list >>= λ l. parse_loop n f l (next_item (from_comma p)))
unfolding parse_loop
parse_loop-item n f list p q c start end_value e h item =
    rw e (rw (h, parse_loop) (rw (rw e at item, parse_loop) refl))

pub parse_loop-EndsLine :
    (n f : ℕ) (list : CpuList) (t : Bytes) → EndsLine t → parse_loop n (suc f) list t ≡ ok list
unfolding parse_loop
parse_loop-EndsLine n f list [] e = refl
parse_loop-EndsLine n f list (c ∷ t) e =
    let newline : (c == b'\n') ≡ true = ground arith in rw (newline, parse_loop) refl

-- A list is read up to its end: after enough rounds the CPUs set are those that it names, and
-- those that were set before.
pub record Reads (list : CpuList) (xs : List Item) (result : Checked CpuList) : Type 0 where
  pub read : CpuList
  pub returns : result ≡ ok read
  pub sets : (i : ℕ) → i < 32 → has_cpu read i ≡ covered i xs || has_cpu list i

IsNumber-lt : (ds : List ℕ) → IsNumber ds → place_value 10 ds < 2 ^ 31
IsNumber-lt [] v = absurd v
IsNumber-lt (d ∷ ds) v = v.1

IsWritten-lt : (x : Item) → IsWritten x → first x < 2 ^ 31
IsWritten-lt (single ds) v = IsNumber-lt ds v
IsWritten-lt (range ds es) v = IsNumber-lt ds v.0

has_cpu-range :
    (start end_value i : ℕ) (list : CpuList)
    → start < 2 ^ 31
    → end_value < 2 ^ 31 - 1
    → i < 32
    → has_cpu (set_loop (rounds start end_value) start list) i
      ≡ (leb start i && leb i end_value) || has_cpu list i
has_cpu-range start end_value i list s e lt =
    rw (has_cpu-set_loop (rounds start end_value) start i list lt (omega arith)) (ground arith)

range_loop-ok :
    (start end_value : ℕ) (list : CpuList)
    → end_value < 2 ^ 31 - 1
    → range_loop (2 ^ 32) start end_value list ≡ ok (set_loop (rounds start end_value) start list)
range_loop-ok start end_value list h =
    range_loop-set_loop (2 ^ 32) (rounds start end_value) start end_value list refl (omega arith)
      (omega arith)

Reads-item :
    (f : ℕ) (list : CpuList) (x : Item) (xs : List Item) (p q : Bytes)
    → IsItem x
    → parse_item (before_comma (render_item x ++ p)) ≡ some (first x, last x)
    → next_item (from_comma (render_item x ++ p)) ≡ q
    → ((l : CpuList) → Reads l xs (parse_loop (2 ^ 32) f l q))
    → Reads list (x ∷ xs) (parse_loop (2 ^ 32) (suc f) list (render_item x ++ p))
Reads-item f list x xs p q v item next rest =
    let (c, r, e, h) = render_item-head x p v.0 in
    let list' = set_loop (rounds (first x) (last x)) (first x) list in
    let later = rest list' in
    record {
      read = later.read;
      returns =
          parse_loop-item (2 ^ 32) f list (render_item x ++ p) r c (first x) (last x) e h item
          ∙ rw (range_loop-ok (first x) (last x) list v.1) (rw next later.returns);
      sets = λ i lt. ground (
        arith,
        later.sets i lt,
        has_cpu-range (first x) (last x) i list (IsWritten-lt x v.0) v.1 lt,
      );
    }

Reads-end :
    (f : ℕ) (list : CpuList) (t : Bytes)
    → EndsLine t
    → Reads list [] (parse_loop (2 ^ 32) (suc f) list t)
Reads-end f list t e = record {
  read = list;
  returns = parse_loop-EndsLine (2 ^ 32) f list t e;
  sets = λ i lt. refl;
}

parse_loop-Reads :
    (xs : List Item) (t : Bytes) (f : ℕ) (list : CpuList)
    → All IsItem xs
    → EndsLine t
    → length (render xs t) < f
    → Reads list xs (parse_loop (2 ^ 32) f list (render xs t))
parse_loop-Reads xs t zero list v e h = absurd (omega arith)
parse_loop-Reads [] t (suc f) list v e h = Reads-end f list t e
parse_loop-Reads (x ∷ []) t (suc zero) list v e h =
    let (c, r, split, _) = render_item-head x t v.0.0 in absurd (omega (arith, ap length split))
parse_loop-Reads (x ∷ []) t (suc (suc f)) list v e h =
    let none_left =
      NoComma-append (render_item x) t (render_item-NoComma x v.0.0) (EndsLine-NoComma t e) in
    Reads-item (suc f) list x [] t [] v.0
      (rw (before_comma-all (render_item x ++ t) none_left) (parse_item-render x t v.0.0 e))
      (rw (from_comma-all (render_item x ++ t) none_left) refl) (λ l. Reads-end f l [] tt)
parse_loop-Reads (x ∷ y ∷ xs) t (suc f) list v e h =
    let q = render (y ∷ xs) t in
    let inside = render_item-NoComma x v.0.0 in
    Reads-item f list x (y ∷ xs) (b',' ∷ q) q v.0
      (rw (before_comma-cons (render_item x) q inside)
        (rw (append-nil (render_item x)) at (parse_item-render x [] v.0.0 tt)))
      (rw (from_comma-cons (render_item x) q inside) refl)
      (λ l.
        parse_loop-Reads (y ∷ xs) t f l v.1 e
          (omega (arith, length-append {0} (render_item x) (b',' ∷ q))))

-- A list in the kernel's notation, of decimal numbers and ranges whose last CPU is below the
-- largest `int`, with or without the newline behind it, is read whole: the parser sets the CPUs
-- of its inclusive ranges that are below 32, and keeps those set before.
pub cpulist_parse-Reads :
    (list : CpuList) (xs : List Item) (t : Bytes)
    → All IsItem xs
    → EndsLine t
    → Reads list xs (cpulist_parse list (render xs t))
unfolding cpulist_parse cpulist_parse_within
cpulist_parse-Reads list xs t v e = parse_loop-Reads xs t _ list v e (omega arith)
