-- ===== src/CpuFeatures/CpuInfo/Words.antt =====
-- `has_list_item` of cpu-features.c decides membership in the list of blank-separated words.
use ndk.Base.{
  ℕ, zero, suc, ◌≤◌, ◌<◌, ◌≡◌, ◌≢◌, refl, ap, sym, ◌∙◌, Bool, true, false, ◌||◌, some, List, [],
  ◌∷◌, Bytes, length, equal, if◌then◌else◌, Bool-cases, inl, inr, arith,
}
use ndk.CpuFeatures.CpuInfo.{is_blank, skip_blanks, item_of, after_item, item_loop, has_list_item}

abbrev pub push_word : Bytes → List Bytes → List Bytes
push_word [] ws = ws
push_word (c ∷ w) ws = (c ∷ w) ∷ ws

-- The word that a text begins with, empty before a blank, and the words behind it.
unfoldable pub split_words : Bytes → Bytes × List Bytes
split_words [] = ([], [])
split_words (c ∷ p) =
    let (w, ws) = split_words p in if is_blank c then ([], push_word w ws) else (c ∷ w, ws)

unfoldable pub words : Bytes → List Bytes
unfolding split_words
words p = push_word (split_words p).0 (split_words p).1

abbrev pub mentions : Bytes → List Bytes → Bool
mentions item [] = false
mentions item (w ∷ ws) = equal w item || mentions item ws

split_words-blank : (c : ℕ) (p : Bytes) → is_blank c ≡ true → split_words (c ∷ p) ≡ ([], words p)
unfolding words
split_words-blank c p b = ground arith

split_words-byte :
    (c : ℕ) (p : Bytes)
    → is_blank c ≡ false
    → split_words (c ∷ p) ≡ (c ∷ (split_words p).0, (split_words p).1)
unfolding split_words
split_words-byte c p b = ground arith

words-split_words :
    (p q : Bytes) (ws : List Bytes) → split_words p ≡ (q, ws) → words p ≡ push_word q ws
words-split_words p q ws e = unfold words in ap (λ (s : Bytes × List Bytes). push_word s.0 s.1) e

words-skip_blanks : (p : Bytes) → words (skip_blanks p) ≡ words p
words-skip_blanks [] = refl
words-skip_blanks (c ∷ p) = elim (Bool-cases (is_blank c)) [
  | inl b ↦
      ground (
        arith,
        words-skip_blanks p,
        words-split_words (c ∷ p) [] (words p) (split_words-blank c p b),
      )
  | inr b ↦ ground arith
]

split_words-item : (p : Bytes) → split_words p ≡ (item_of p, words (after_item p))
split_words-item [] = unfold words in refl
split_words-item (c ∷ p) = elim (Bool-cases (is_blank c)) [
  | inl b ↦ ground (
    arith,
    split_words-blank c p b,
    words-split_words (c ∷ p) [] (words p) (split_words-blank c p b),
  )
  | inr b ↦ ground (arith, split_words-byte c p b, split_words-item p)
]

words-item : (p : Bytes) → words p ≡ push_word (item_of p) (words (after_item p))
words-item p = words-split_words p _ _ (split_words-item p)

length-after_item : (p : Bytes) → length (after_item p) ≤ length p
length-after_item [] = omega arith
length-after_item (c ∷ p) = ground (arith, length-after_item p)

-- A round takes at least one byte.
length-round : (c : ℕ) (p : Bytes) → length (after_item (skip_blanks (c ∷ p))) ≤ length p
length-round c [] = ground arith
length-round c (d ∷ p) = ground (arith, length-round d p, length-after_item (d ∷ p))

mentions-push_word :
    (item w : Bytes) (ws : List Bytes)
    → item ≢ []
    → mentions item (push_word w ws) ≡ equal w item || mentions item ws
mentions-push_word [] w ws ne = absurd (ne refl)
mentions-push_word (c ∷ item) [] ws ne = refl
mentions-push_word (c ∷ item) (d ∷ w) ws ne = refl

mentions-round :
    (item p : Bytes)
    → item ≢ []
    → mentions item (words p)
      ≡ equal (item_of (skip_blanks p)) item || mentions item (words (after_item (skip_blanks p)))
mentions-round item p ne =
    ap (mentions item) (sym (words-skip_blanks p) ∙ words-item (skip_blanks p))
    ∙ mentions-push_word item _ _ ne

item_loop-mentions :
    (f : ℕ) (p item : Bytes)
    → item ≢ []
    → length p < f
    → item_loop f p item ≡ some (mentions item (words p))
unfolding item_loop
item_loop-mentions zero p item ne h = absurd (omega arith)
item_loop-mentions (suc f) [] item ne h = unfold words in refl
item_loop-mentions (suc f) (c ∷ p) item ne h = ground (
  arith,
  mentions-round item (c ∷ p) ne,
  item_loop-mentions f (after_item (skip_blanks (c ∷ p))) item ne (omega (arith, length-round c p)),
)

-- For an item that is not empty, the test ends, and holds exactly when the item is one of the
-- words of the list, between spaces and tabs.
pub has_list_item-mentions :
    (list item : Bytes) → item ≢ [] → has_list_item list item ≡ some (mentions item (words list))
unfolding has_list_item
has_list_item-mentions list item ne = item_loop-mentions _ list item ne (omega arith)
