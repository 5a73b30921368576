-- ===== src/NdkStack/Tokens/Laws.antt =====
-- What `get_next_token` of ndk-stack-parser.c takes from a line, and what `ParseFrame` makes of it.
use ndk.Base.{
  ℕ, ◌-◌, ◌≡◌, refl, ap, ◌∙◌, true, false, none, some, [], ◌∷◌, ◌++◌, Bytes, take, All, append-nil,
}
use ndk.NdkStack.Tokens.{
  is_separator, next_separator, skip_separators, next_token, token_at, get_next_token,
}

abbrev pub Word : Bytes → Type 0
Word = All (λ c. is_separator c ≡ false)

abbrev pub Gap : Bytes → Type 0
Gap = All (λ c. is_separator c ≡ true)

-- The end of the line, or a separator.
abbrev pub EndsWord : Bytes → Type 0
EndsWord [] = Unit
EndsWord (c ∷ s) = is_separator c ≡ true

next_separator-Word : (word s : Bytes) → Word word → EndsWord s → next_separator (word ++ s) ≡ s
next_separator-Word [] [] w e = refl
next_separator-Word [] (c ∷ s) w e = rw e refl
next_separator-Word (c ∷ word) s w e = rw w.0 (next_separator-Word word s w.1 e)

token_at-Word : (word s : Bytes) → Word word → EndsWord s → token_at (word ++ s) ≡ word
token_at-Word [] [] w e = refl
token_at-Word [] (c ∷ s) w e = rw e refl
token_at-Word (c ∷ word) s w e = rw w.0 (ap (◌∷◌ c) (token_at-Word word s w.1 e))

skip_separators-Gap :
    (gap : Bytes) (c : ℕ) (s : Bytes)
    → Gap gap
    → is_separator c ≡ false
    → skip_separators (gap ++ c ∷ s) ≡ c ∷ s
skip_separators-Gap [] c s g e = rw e refl
skip_separators-Gap (d ∷ gap) c s g e = rw g.0 (skip_separators-Gap gap c s g.1 e)

skip_separators-all : (gap : Bytes) → Gap gap → skip_separators gap ≡ []
skip_separators-all [] g = refl
skip_separators-all (d ∷ gap) g = rw g.0 (skip_separators-all gap g.1)

Gap-EndsWord : (gap s : Bytes) → Gap gap → EndsWord s → EndsWord (gap ++ s)
Gap-EndsWord [] s g e = e
Gap-EndsWord (d ∷ gap) s g e = g.0

get_next_token-eq :
    (size : ℕ) (s at : Bytes) (c : ℕ) (token : Bytes)
    → next_token s ≡ at
    → token_at at ≡ c ∷ token
    → get_next_token size s ≡ some (take (size - 1) (c ∷ token), at)
unfolding get_next_token
get_next_token-eq size s at c token e t =
    rw (ap token_at e ∙ t, get_next_token) (ap (λ p. some (take (size - 1) (c ∷ token), p)) e)

-- Behind the rest of a word and the separators that follow, the next word is taken: the buffer gets
-- its first `size - 1` bytes, and the result is its place.
pub get_next_token-Word :
    (size : ℕ) (word : Bytes) (d : ℕ) (gap : Bytes) (c : ℕ) (token rest : Bytes)
    → Word word
    → Gap (d ∷ gap)
    → Word (c ∷ token)
    → EndsWord rest
    → get_next_token size (word ++ ((d ∷ gap) ++ ((c ∷ token) ++ rest)))
      ≡ some (take (size - 1) (c ∷ token), (c ∷ token) ++ rest)
get_next_token-Word size word d gap c token rest w g t e =
    get_next_token-eq size (word ++ ((d ∷ gap) ++ ((c ∷ token) ++ rest))) ((c ∷ token) ++ rest) c
      token
      (ap skip_separators (next_separator-Word word ((d ∷ gap) ++ ((c ∷ token) ++ rest)) w g.0)
        ∙ skip_separators-Gap (d ∷ gap) c (token ++ rest) g t.0)
      (token_at-Word (c ∷ token) rest t e)

-- With nothing but separators behind the word, there is no next token.
pub get_next_token-none :
    (size : ℕ) (word gap : Bytes) → Word word → Gap gap → get_next_token size (word ++ gap) ≡ none
unfolding get_next_token
get_next_token-none size word gap w g =
    let e : next_token (word ++ gap) ≡ [] =
      ap skip_separators
        (rw (append-nil gap) at (next_separator-Word word (gap ++ []) w (Gap-EndsWord gap [] g tt)))
      ∙ skip_separators-all gap g in
    rw (e, get_next_token) refl
