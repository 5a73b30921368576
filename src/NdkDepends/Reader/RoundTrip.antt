-- ===== src/NdkDepends/Reader/RoundTrip.antt =====
-- The readers of ndk-depends.cc give back a word that was written in their byte order.
use ndk.Base.{
  ℕ, zero, suc, ◌+◌, ◌*◌, ◌/◌, ◌%◌, ◌^◌, ◌<◌, bit_or, Bool, true, false, some, [], ◌∷◌, ◌++◌, Bytes,
  length, take, drop, ltb, leb, length-append, ◌≡◌, refl, ap, ◌∙◌, arith,
}
use ndk.Base.Bits.Fields.{bit_or-disjoint, bit_or_above}
use ndk.NdkDepends.Reader.{
  Reader, get_u16_le, get_u32_le, get_u64_le, get_u16_be, get_u32_be, get_u64_be, get_bytes_at,
  get_u16_at, get_u32_at, get_u64_at,
}

-- A word's bytes, the low ones first, and the high ones first.
abbrev pub low_first : ℕ → ℕ → Bytes
low_first zero n = []
low_first (suc k) n = n % 256 ∷ low_first k (n / 256)

abbrev pub high_first : ℕ → ℕ → Bytes
high_first zero n = []
high_first (suc k) n = high_first k (n / 256) ++ n % 256 ∷ []

abbrev pub encoded : Bool → ℕ → ℕ → Bytes
encoded true k n = high_first k n
encoded false k n = low_first k n

low_word :
    (a b c d : ℕ)
    → a < 256
    → b < 256
    → c < 256
    → bit_or (bit_or (bit_or a (b * 2 ^ 8)) (c * 2 ^ 16)) (d * 2 ^ 24)
      ≡ a + b * 2 ^ 8 + c * 2 ^ 16 + d * 2 ^ 24
low_word a b c d ha hb hc =
    let first = bit_or_above 8 b a ha in
    let second = bit_or_above 16 c (b * 2 ^ 8 + a) (omega arith) in
    let third = bit_or_above 24 d (c * 2 ^ 16 + (b * 2 ^ 8 + a)) (omega arith) in
    rw (first, second, third) (omega arith)

high_word :
    (a b c d : ℕ)
    → a < 256
    → b < 256
    → c < 256
    → bit_or (bit_or (bit_or (d * 2 ^ 24) (c * 2 ^ 16)) (b * 2 ^ 8)) a
      ≡ a + b * 2 ^ 8 + c * 2 ^ 16 + d * 2 ^ 24
high_word a b c d ha hb hc =
    let first = bit_or-disjoint 24 d (c * 2 ^ 16) (omega arith) in
    let second = bit_or-disjoint 16 (d * 2 ^ 8 + c) (b * 2 ^ 8) (omega arith) in
    let third = bit_or-disjoint 8 (d * 2 ^ 16 + c * 2 ^ 8 + b) a (omega arith) in
    let two : d * 2 ^ 24 + c * 2 ^ 16 ≡ (d * 2 ^ 8 + c) * 2 ^ 16 = omega arith in
    let three : (d * 2 ^ 8 + c) * 2 ^ 16 + b * 2 ^ 8 ≡ (d * 2 ^ 16 + c * 2 ^ 8 + b) * 2 ^ 8 =
      omega arith in
    ap (λ t. bit_or (bit_or t (b * 2 ^ 8)) a) (first ∙ two)
    ∙ ap (λ t. bit_or t a) (second ∙ three)
    ∙ third
    ∙ omega arith

u16_le : (n : ℕ) → get_u16_le (low_first 2 n) ≡ n % 2 ^ 16
unfolding get_u16_le
u16_le n = bit_or_above 8 (n / 256 % 256) (n % 256) (omega arith) ∙ omega arith

u16_be : (n : ℕ) → get_u16_be (high_first 2 n) ≡ n % 2 ^ 16
unfolding get_u16_be
u16_be n = bit_or-disjoint 8 (n / 256 % 256) (n % 256) (omega arith) ∙ omega arith

u32_le : (n : ℕ) (rest : Bytes) → get_u32_le (low_first 4 n ++ rest) ≡ n % 2 ^ 32
unfolding get_u32_le
u32_le n rest =
    low_word (n % 256) (n / 256 % 256) (n / 256 / 256 % 256) (n / 256 / 256 / 256 % 256)
      (omega arith) (omega arith) (omega arith)
    ∙ omega arith

u32_be : (n : ℕ) (rest : Bytes) → get_u32_be (high_first 4 n ++ rest) ≡ n % 2 ^ 32
unfolding get_u32_be
u32_be n rest =
    high_word (n % 256) (n / 256 % 256) (n / 256 / 256 % 256) (n / 256 / 256 / 256 % 256)
      (omega arith) (omega arith) (omega arith)
    ∙ omega arith

two_halves : (n : ℕ) → bit_or (n % 2 ^ 32) (n / 2 ^ 32 % 2 ^ 32 * 2 ^ 32) ≡ n % 2 ^ 64
two_halves n = bit_or_above 32 (n / 2 ^ 32 % 2 ^ 32) (n % 2 ^ 32) (omega arith) ∙ omega arith

upper : (n : ℕ) → n / 256 / 256 / 256 / 256 ≡ n / 2 ^ 32
upper n = omega arith

halves :
    (n lo hi : ℕ)
    → lo ≡ n % 2 ^ 32
    → hi ≡ n / 256 / 256 / 256 / 256 % 2 ^ 32
    → bit_or lo (hi * 2 ^ 32) ≡ n % 2 ^ 64
halves n lo hi e e' =
    ap (λ t. bit_or t (hi * 2 ^ 32)) e
    ∙ ap (λ t. bit_or (n % 2 ^ 32) (t * 2 ^ 32)) (e' ∙ ap (λ t. t % 2 ^ 32) (upper n))
    ∙ two_halves n

u64_le : (n : ℕ) → get_u64_le (low_first 8 n) ≡ n % 2 ^ 64
unfolding get_u64_le
u64_le n =
    let high = n / 256 / 256 / 256 / 256 in
    halves n (get_u32_le (low_first 8 n)) (get_u32_le (low_first 4 high))
      (u32_le n (low_first 4 high)) (u32_le high [])

u64_be : (n : ℕ) → get_u64_be (high_first 8 n) ≡ n % 2 ^ 64
unfolding get_u64_be
u64_be n =
    let high = n / 256 / 256 / 256 / 256 in
    halves n (get_u32_be (high_first 4 n)) (get_u32_be (high_first 8 n)) (u32_be n [])
      (u32_be high (high_first 4 n))

drop-append : (before rest : Bytes) → drop (length before) (before ++ rest) ≡ rest
drop-append [] rest = refl
drop-append (b ∷ before) rest = drop-append before rest

take-append : (word rest : Bytes) → take (length word) (word ++ rest) ≡ word
take-append [] rest = refl
take-append (b ∷ word) rest = ap (λ t. b ∷ t) (take-append word rest)

-- The bytes at a position are those that stand there.
pub get_bytes_at-append :
    (before word after : Bytes)
    → length word < 32
    → length before < 2 ^ 63
    → get_bytes_at (before ++ (word ++ after)) (length before) (length word) ≡ some word
unfolding get_bytes_at
get_bytes_at-append before word after few near =
    let short : ltb (length word) 32 ≡ true = ground arith in
    let position : ltb (length before) (2 ^ 63) ≡ true = ground arith in
    let whole : leb (length before + length word) (length (before ++ (word ++ after))) ≡ true =
      ground (arith, length-append before (word ++ after), length-append word after) in
    rw (short, position, whole, drop-append before (word ++ after), take-append word after)

-- A word of 16, 32 or 64 bits that stands in a file in the reader's byte order, at a position below
-- 2 ^ 63, is what the reader gives for the position: a number is written by its lowest 2, 4 or 8
-- bytes.
pub get_at-encoded :
    (big_endian : Bool) (n : ℕ) (before after : Bytes)
    → length before < 2 ^ 63
    → (let reader : ℕ → Reader = λ k. record {
      file = before ++ (encoded big_endian k n ++ after);
      big_endian = big_endian;
    } in
        (get_u16_at (reader 2) (length before) ≡ n % 2 ^ 16)
        × (get_u32_at (reader 4) (length before) ≡ n % 2 ^ 32)
        × (get_u64_at (reader 8) (length before) ≡ n % 2 ^ 64))
unfolding get_u16_at get_u32_at get_u64_at
get_at-encoded true n before after near = (
  rw (get_bytes_at-append before (high_first 2 n) after (omega arith) near) (u16_be n),
  rw (get_bytes_at-append before (high_first 4 n) after (omega arith) near) (u32_be n []),
  rw (get_bytes_at-append before (high_first 8 n) after (omega arith) near) (u64_be n),
)
get_at-encoded false n before after near = (
  rw (get_bytes_at-append before (low_first 2 n) after (omega arith) near) (u16_le n),
  rw (get_bytes_at-append before (low_first 4 n) after (omega arith) near) (u32_le n []),
  rw (get_bytes_at-append before (low_first 8 n) after (omega arith) near) (u64_le n),
)
