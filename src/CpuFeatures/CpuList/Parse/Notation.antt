-- ===== src/CpuFeatures/CpuList/Parse/Notation.antt =====
-- The kernel's notation for lists of CPUs, and how `parse_item` of cpu-features.c reads an item.
use ndk.Base.{
  ℕ, ◌-◌, ◌^◌, ◌<◌, ◌≡◌, refl, Bool, false, ◌&&◌, ◌||◌, some, List, [], ◌∷◌, ◌++◌, Bytes, All, leb,
  ◌==◌, arith, append_assoc,
}
use ndk.CpuFeatures.Number.Laws.{digit_char, digit_chars, place_value, Stops, parse_number-digits}
use ndk.CpuFeatures.Number.{digit, parse_decimal}
use ndk.CpuFeatures.CpuList.{parse_end, parse_item}
use ndk.CpuFeatures.CpuList.Parse.Split.{NoComma, NoComma-append}

-- A number by its digits: at least one, and at most the largest `int`.
abbrev pub IsNumber : List ℕ → Type 0
IsNumber [] = ⊥
IsNumber (d ∷ ds) = All (λ e. e < 10) (d ∷ ds) × (place_value 10 (d ∷ ds) < 2 ^ 31)

pub data Item : Type 0 where
  single : List ℕ → Item
  range : List ℕ → List ℕ → Item

abbrev pub IsWritten : Item → Type 0
IsWritten (single ds) = IsNumber ds
IsWritten (range ds es) = IsNumber ds × IsNumber es

abbrev pub render_item : Item → Bytes
render_item (single ds) = digit_chars ds
render_item (range ds es) = digit_chars ds ++ b'-' ∷ digit_chars es

-- The items between commas, and what follows the last.
abbrev pub render : List Item → Bytes → Bytes
render [] t = t
render (x ∷ []) t = render_item x ++ t
render (x ∷ y ∷ xs) t = render_item x ++ b',' ∷ render (y ∷ xs) t

abbrev pub first : Item → ℕ
first (single ds) = place_value 10 ds
first (range ds es) = place_value 10 ds

abbrev pub last : Item → ℕ
last (single ds) = place_value 10 ds
last (range ds es) = place_value 10 es

-- An item whose CPUs end below the largest `int`.
abbrev pub IsItem : Item → Type 0
IsItem x = IsWritten x × (last x < 2 ^ 31 - 1)

-- CPU `i` is in one of the inclusive ranges.
abbrev pub covered : ℕ → List Item → Bool
covered i [] = false
covered i (x ∷ xs) = (leb (first x) i && leb i (last x)) || covered i xs

-- The end of the buffer, or the newline that sysfs puts there.
abbrev pub EndsLine : Bytes → Type 0
EndsLine [] = Unit
EndsLine (c ∷ t) = (c ≡ b'\n') × NoComma t

pub EndsLine-Stops : (t : Bytes) → EndsLine t → Stops 10 t
unfolding digit
EndsLine-Stops [] e = tt
EndsLine-Stops (c ∷ t) e = ground arith

pub parse-IsNumber :
    (ds : List ℕ) (t : Bytes)
    → IsNumber ds
    → Stops 10 t
    → parse_decimal (digit_chars ds ++ t) ≡ some (place_value 10 ds, t)
parse-IsNumber [] t v s = absurd v
parse-IsNumber (d ∷ ds) t v s = ground (arith, parse_number-digits 10 d ds t (omega arith) v.0 s)

pub parse_end-EndsLine : (n : ℕ) (t : Bytes) → EndsLine t → parse_end n t ≡ some n
unfolding parse_end
parse_end-EndsLine n [] e = refl
parse_end-EndsLine n (c ∷ t) e = ground arith

parse_end-range :
    (n : ℕ) (es : List ℕ) (t : Bytes)
    → IsNumber es
    → EndsLine t
    → parse_end n (b'-' ∷ (digit_chars es ++ t)) ≡ some (place_value 10 es)
unfolding parse_end
parse_end-range n es t v e = rw (parse-IsNumber es t v (EndsLine-Stops t e), parse_end) refl

pub dash-Stops : (p : Bytes) → Stops 10 (b'-' ∷ p)
unfolding digit
dash-Stops p = refl

pub parse_item-render :
    (x : Item) (t : Bytes)
    → IsWritten x
    → EndsLine t
    → parse_item (render_item x ++ t) ≡ some (first x, last x)
unfolding parse_item
parse_item-render (single ds) t v e =
    rw (parse-IsNumber ds t v (EndsLine-Stops t e), parse_item)
      (rw (parse_end-EndsLine (place_value 10 ds) t e) refl)
parse_item-render (range ds es) t v e =
    rw (append_assoc (digit_chars ds) (b'-' ∷ digit_chars es) t) (
      rw
        (
          parse-IsNumber ds (b'-' ∷ (digit_chars es ++ t)) v.0 (dash-Stops (digit_chars es ++ t)),
          parse_item,
        )
        (rw (parse_end-range (place_value 10 ds) es t v.1 e) refl))

pub digit_chars-NoComma : (ds : List ℕ) → All (λ e. e < 10) ds → NoComma (digit_chars ds)
digit_chars-NoComma [] h = tt
digit_chars-NoComma (d ∷ ds) h = (ground arith, digit_chars-NoComma ds h.1)

pub IsNumber-NoComma : (ds : List ℕ) → IsNumber ds → NoComma (digit_chars ds)
IsNumber-NoComma [] v = tt
IsNumber-NoComma (d ∷ ds) v = digit_chars-NoComma (d ∷ ds) v.0

pub render_item-NoComma : (x : Item) → IsWritten x → NoComma (render_item x)
render_item-NoComma (single ds) v = IsNumber-NoComma ds v
render_item-NoComma (range ds es) v =
    NoComma-append (digit_chars ds) (b'-' ∷ digit_chars es) (IsNumber-NoComma ds v.0)
      (refl, IsNumber-NoComma es v.1)

pub EndsLine-NoComma : (t : Bytes) → EndsLine t → NoComma t
EndsLine-NoComma [] e = tt
EndsLine-NoComma (c ∷ t) e = (ground arith, e.1)

pub digit_chars-head :
    (ds : List ℕ) (t : Bytes)
    → IsNumber ds
    → (c : ℕ) × (q : Bytes) × (digit_chars ds ++ t ≡ c ∷ q) × ((c == b'\n') ≡ false)
digit_chars-head [] t v = absurd v
digit_chars-head (d ∷ ds) t v = (digit_char d, digit_chars ds ++ t, refl, ground arith)

pub render_item-head :
    (x : Item) (t : Bytes)
    → IsWritten x
    → (c : ℕ) × (q : Bytes) × (render_item x ++ t ≡ c ∷ q) × ((c == b'\n') ≡ false)
render_item-head (single ds) t v = digit_chars-head ds t v
render_item-head (range ds es) t v =
    rw (append_assoc (digit_chars ds) (b'-' ∷ digit_chars es) t)
      (digit_chars-head ds (b'-' ∷ (digit_chars es ++ t)) v.0)
