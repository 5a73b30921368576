-- ===== src/CpuFeatures/CpuInfo.antt =====
-- `extract_cpuinfo_field` and `has_list_item` of cpu-features.c, which look into /proc/cpuinfo.
pub mod Words
pub mod Fields
use ndk.Base.{
  ℕ, zero, suc, ◌+◌, Bool, true, false, ◌&&◌, ◌||◌, not, Option, none, some, [], ◌∷◌, Bytes, length,
  take, drop, equal, ◌==◌, if◌then◌else◌,
}
use ndk.Base.CString.{c_string, starts_with}
use ndk.Base.Checked.{Checked, ok, out_of_bounds, ◌>>=◌, fueled}

-- A position in a buffer: the byte before it, unless it is the start, and the bytes from it on.
abbrev pub Position : Type 0
Position = Option ℕ × Bytes

-- `memmem(p, bufend-p, field, fieldlen)` for a field that is not empty.
unfoldable pub memmem : Option ℕ → Bytes → Bytes → Option Position
memmem before [] field = none
memmem before (c ∷ p) field =
    if starts_with field (c ∷ p) then some (before, c ∷ p) else memmem (some c) p field

-- `p == buffer || p[-1] == '\n'`
abbrev pub starts_line : Option ℕ → Bool
starts_line none = true
starts_line (some c) = c == b'\n'

-- The last byte of `field`, which stands before `p` after `p += fieldlen`.
abbrev pub last_byte : ℕ → Bytes → ℕ
last_byte c [] = c
last_byte c (d ∷ field) = last_byte d field

-- The first loop of `extract_cpuinfo_field`, for the field `c ∷ cs`, on fuel: the outer `none` is
-- a lack of fuel, the inner one the jump to EXIT.
unfoldable pub field_loop : ℕ → ℕ → Bytes → Option ℕ → Bytes → Option (Option Bytes)
field_loop zero c cs before p = none
field_loop (suc f) c cs before p = elim (memmem before p (c ∷ cs)) [
  | none ↦ some none
  | some (before', q) ↦ elim (starts_line before') [
    | true ↦ some (some q)
    | false ↦ field_loop f c cs (some (last_byte c cs)) (drop (suc (length cs)) q)
  ]
]

-- `memchr(p, c, bufend-p)`: the bytes from the first `c` on.
abbrev pub memchr : ℕ → Bytes → Option Bytes
memchr c [] = none
memchr c (d ∷ p) = if d == c then some (d ∷ p) else memchr c p

-- The bytes before the newline, or up to the end of the buffer.
abbrev pub line_of : Bytes → Bytes
line_of [] = []
line_of (c ∷ p) = if c == b'\n' then [] else c ∷ line_of p

-- `p` is at the colon, or NULL. `p[1]` is read also where the colon is the last byte of the buffer.
unfoldable pub value_at : Option Bytes → Checked (Option Bytes)
value_at none = ok none
value_at (some []) = ok none
value_at (some (colon ∷ [])) = out_of_bounds
value_at (some (colon ∷ space ∷ p)) = if space == b' ' then ok (some (line_of p)) else ok none

-- The value as the C string that its users see; `alloc` says which sizes `malloc` can provide.
unfoldable pub copy_line : (ℕ → Bool) → Option Bytes → Option Bytes
copy_line alloc none = none
copy_line alloc (some line) = if alloc (length line + 1) then some (c_string line) else none

-- From the field's line, or from the jump to EXIT, to the result.
unfoldable pub field_value : (ℕ → Bool) → Bytes → Option Bytes → Checked (Option Bytes)
field_value alloc cs none = ok none
field_value alloc cs (some p) = do
  line ← value_at (memchr b':' (drop (suc (length cs)) p))
  ok (copy_line alloc line)

unfoldable pub extract_cpuinfo_field : (ℕ → Bool) → Bytes → ℕ → Bytes → Checked (Option Bytes)
extract_cpuinfo_field alloc buffer c cs = do
  p ← fueled (field_loop (suc (length buffer)) c cs none buffer)
  field_value alloc cs p

abbrev pub is_blank : ℕ → Bool
is_blank c = c == b' ' || c == b'\t'

-- `while (*p == ' ' || *p == '\t') p++;`
abbrev pub skip_blanks : Bytes → Bytes
skip_blanks [] = []
skip_blanks (c ∷ p) = if is_blank c then skip_blanks p else c ∷ p

-- The bytes from `p` to `q`, the end of the item, and those from `q` on.
abbrev pub item_of : Bytes → Bytes
item_of [] = []
item_of (c ∷ p) = if is_blank c then [] else c ∷ item_of p

abbrev pub after_item : Bytes → Bytes
after_item [] = []
after_item (c ∷ p) = if is_blank c then c ∷ p else after_item p

-- The loop of `has_list_item` over a C string, on fuel.
unfoldable pub item_loop : ℕ → Bytes → Bytes → Option Bool
item_loop zero p item = none
item_loop (suc f) [] item = some false
item_loop (suc f) (c ∷ p) item = elim (equal (item_of (skip_blanks (c ∷ p))) item) [
  | true ↦ some true
  | false ↦ item_loop f (after_item (skip_blanks (c ∷ p))) item
]

unfoldable pub has_list_item : Bytes → Bytes → Option Bool
has_list_item list item = item_loop (suc (length list)) list item
