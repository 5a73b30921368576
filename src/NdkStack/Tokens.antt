-- ===== src/NdkStack/Tokens.antt =====
-- The helpers of ndk-stack-parser.c that look for words in a line.
pub mod Laws
use ndk.Base.{
  ℕ, zero, suc, ◌-◌, Bool, true, false, ◌&&◌, ◌||◌, Option, none, some, List, [], ◌∷◌, Bytes, codes,
  take, drop, length, ◌==◌, if◌then◌else◌,
}
use ndk.Base.CString.{starts_with}

-- `strstr` for a text that is not empty: the byte before the place found, and the string from it
-- on.
unfoldable pub strstr : Option ℕ → Bytes → Bytes → Option (Option ℕ × Bytes)
strstr before [] text = none
strstr before (c ∷ s) text =
    if starts_with text (c ∷ s) then some (before, c ∷ s) else strstr (some c) s text

abbrev pub is_separator : ℕ → Bool
is_separator c = c == b' ' || c == b'\t'

-- `str + strcspn(str, " \t")`
abbrev pub next_separator : Bytes → Bytes
next_separator [] = []
next_separator (c ∷ s) = if is_separator c then c ∷ s else next_separator s

-- `str + strspn(str, " \t")`
abbrev pub skip_separators : Bytes → Bytes
skip_separators [] = []
skip_separators (c ∷ s) = if is_separator c then skip_separators s else c ∷ s

abbrev pub next_token : Bytes → Bytes
next_token s = skip_separators (next_separator s)

-- The bytes from `start` to `next_separator(start)`.
abbrev pub token_at : Bytes → Bytes
token_at [] = []
token_at (c ∷ s) = if is_separator c then [] else c ∷ token_at s

-- The text left in `token`, a buffer of `size` bytes, and the place of the token; `none` is NULL.
unfoldable pub get_next_token : ℕ → Bytes → Option (Bytes × Bytes)
get_next_token size s = elim (token_at (next_token s)) [
  | [] ↦ none
  | c ∷ token ↦ some (take (size - 1) (c ∷ token), next_token s)
]

-- The byte behind a text that stands at the head of a string; its end is a NUL.
abbrev pub byte_behind : Bytes → ℕ
byte_behind [] = 0
byte_behind (c ∷ s) = c

abbrev pub before_is_separator : Option ℕ → Bool
before_is_separator none = false
before_is_separator (some c) = is_separator c

-- One round of the loop of `find_pc`.
unfoldable pub find_word : Bytes → Bytes → Option Bytes
find_word frame word = elim (strstr none frame word) [
  | none ↦ none
  | some (before, p) ↦
      if before_is_separator before && is_separator (byte_behind (drop (length word) p))
      then some p
      else none
]

abbrev pub find_words : Bytes → List Bytes → Option Bytes
find_words frame [] = none
find_words frame (word ∷ words) = elim (find_word frame word) [
  | some p ↦ some p
  | none ↦ find_words frame words
]

unfoldable pub find_pc : Bytes → Option Bytes
find_pc frame = find_words frame (codes "pc" ∷ codes "eip" ∷ codes "ip" ∷ [])
