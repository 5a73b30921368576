-- ===== src/CpuFeatures/CpuInfo/Fields/Search.antt =====
-- The search for a field's line in `extract_cpuinfo_field` of cpu-features.c.
use ndk.Base.{
  ℕ, zero, suc, ◌≤◌, ◌<◌, ◌≡◌, refl, ap, sym, ◌∙◌, true, false, ◌&&◌, Option, none, some, [], ◌∷◌,
  ◌++◌, Bytes, length, length-drop, drop, All, ◌==◌, if◌then◌else◌, Bool-cases, Option-cases, inl,
  inr, arith,
}
use ndk.Base.CString.{starts_with}
use ndk.CpuFeatures.CpuInfo.{memmem, starts_line, last_byte, field_loop}

abbrev pub Without : ℕ → Bytes → Type 0
Without b = All (λ x. (x == b) ≡ false)

-- The first position at the start of a line where the field stands.
unfoldable pub find_line : Bytes → Option ℕ → Bytes → Option Bytes
find_line field before [] = none
find_line field before (c ∷ p) =
    if starts_line before && starts_with field (c ∷ p)
    then some (c ∷ p)
    else find_line field (some c) p

-- What `memmem` passes over is no occurrence.
memmem-none :
    (before : Option ℕ) (p field : Bytes)
    → memmem before p field ≡ none
    → find_line field before p ≡ none
unfolding memmem find_line
memmem-none before [] field e = refl
memmem-none before (c ∷ p) field e = ground (arith, memmem-none (some c) p field)

memmem-some :
    (before before' : Option ℕ) (p q field : Bytes)
    → memmem before p field ≡ some (before', q)
    → (find_line field before p ≡ find_line field before' q)
      × (starts_with field q ≡ true)
      × (length q ≤ length p)
unfolding memmem find_line
memmem-some before before' [] q field e = absurd (cc)
memmem-some before before' (c ∷ p) q field e =
    ground (arith, memmem-some (some c) before' p q field)

find_line-next :
    (field : Bytes) (before : Option ℕ) (c : ℕ) (p : Bytes)
    → starts_line before ≡ false
    → find_line field before (c ∷ p) ≡ find_line field (some c) p
unfolding find_line
find_line-next field before c p h = rw h refl

pub find_line-here :
    (field : Bytes) (before : Option ℕ) (c : ℕ) (p : Bytes)
    → starts_line before ≡ true
    → starts_with field (c ∷ p) ≡ true
    → find_line field before (c ∷ p) ≡ some (c ∷ p)
unfolding find_line
find_line-here field before c p h k = ground arith

-- No line starts inside an occurrence of text without newlines.
find_line-skip :
    (field : Bytes) (before : Option ℕ) (x : ℕ) (xs q : Bytes)
    → starts_line before ≡ false
    → Without b'\n' (x ∷ xs)
    → starts_with (x ∷ xs) q ≡ true
    → find_line field before q ≡ find_line field (some (last_byte x xs)) (drop (suc (length xs)) q)
find_line-skip field before x xs [] h w s = absurd (cc)
find_line-skip field before x [] (d ∷ q) h w s =
    let e : x ≡ d = ground arith in find_line-next field before d q h ∙ rw e refl
find_line-skip field before x (y ∷ ys) (d ∷ q) h w s =
    let e : x ≡ d = ground arith in
    find_line-next field before d q h
    ∙ rw (← e) (find_line-skip field (some x) y ys q w.0 w.1 (ground arith))

length-nonempty : (c : ℕ) (cs q : Bytes) → starts_with (c ∷ cs) q ≡ true → 0 < length q
length-nonempty c cs [] h = absurd (cc)
length-nonempty c cs (d ∷ q) h = omega arith

field_loop-found :
    (f c : ℕ) (cs : Bytes) (before before' : Option ℕ) (p q : Bytes)
    → memmem before p (c ∷ cs) ≡ some (before', q)
    → field_loop (suc f) c cs before p ≡ (
        if starts_line before'
        then some (some q)
        else field_loop f c cs (some (last_byte c cs)) (drop (suc (length cs)) q))
unfolding field_loop
field_loop-found f c cs before before' p q e = ground arith

field_loop-none :
    (f c : ℕ) (cs : Bytes) (before : Option ℕ) (p : Bytes)
    → memmem before p (c ∷ cs) ≡ none
    → field_loop (suc f) c cs before p ≡ some none
unfolding field_loop
field_loop-none f c cs before p e = ground arith

-- Where an occurrence starts a line, it is the one that is looked for.
find_line-occurrence :
    (field : Bytes) (before : Option ℕ) (q : Bytes)
    → starts_line before ≡ true
    → starts_with field q ≡ true
    → 0 < length q
    → find_line field before q ≡ some q
find_line-occurrence field before [] h k n = absurd (omega arith)
find_line-occurrence field before (d ∷ q) h k n = find_line-here field before d q h k

pub field_loop-find_line :
    (f c : ℕ) (cs : Bytes) (before : Option ℕ) (p : Bytes)
    → Without b'\n' (c ∷ cs)
    → length p < f
    → field_loop f c cs before p ≡ some (find_line (c ∷ cs) before p)
field_loop-find_line zero c cs before p w h = absurd (omega arith)
field_loop-find_line (suc f) c cs before p w h = elim (Option-cases (memmem before p (c ∷ cs))) [
  | inl e ↦ field_loop-none f c cs before p e ∙ ap some (sym (memmem-none before p (c ∷ cs) e))
  | inr ((before', q), e) ↦
      let (same, here, le) = memmem-some before before' p q (c ∷ cs) e in
      let size = length-nonempty c cs q here in
      elim (Bool-cases (starts_line before')) [
        | inl start ↦
            field_loop-found f c cs before before' p q e
            ∙ ground (arith, same, find_line-occurrence (c ∷ cs) before' q start here size)
        | inr inside ↦
            field_loop-found f c cs before before' p q e
            ∙ ground (
              arith,
              same,
              find_line-skip (c ∷ cs) before' c cs q inside w here,
              field_loop-find_line f c cs (some (last_byte c cs)) (drop (suc (length cs)) q) w
                  (omega (arith, length-drop {0} (suc (length cs)) q)),
            )
      ]
]

pub starts_with_self : (field p : Bytes) → starts_with field (field ++ p) ≡ true
starts_with_self [] p = refl
starts_with_self (c ∷ field) p = ground (arith, starts_with_self field p)

-- A field that is no prefix of a line does not reach over its newline.
starts_with-line :
    (field line p : Bytes)
    → Without b'\n' field
    → starts_with field line ≡ false
    → starts_with field (line ++ b'\n' ∷ p) ≡ false
starts_with-line [] line p w h = h
starts_with-line (c ∷ field) [] p w h = ground arith
starts_with-line (c ∷ field) (d ∷ line) p w h = ground (arith, starts_with-line field line p w.1)

find_line-inside :
    (field : Bytes) (before : Option ℕ) (line p : Bytes)
    → starts_line before ≡ false
    → Without b'\n' line
    → find_line field before (line ++ b'\n' ∷ p) ≡ find_line field (some b'\n') p
find_line-inside field before [] p h w = find_line-next field before b'\n' p h
find_line-inside field before (c ∷ line) p h w =
    find_line-next field before c (line ++ b'\n' ∷ p) h
    ∙ find_line-inside field (some c) line p w.0 w.1

find_line-miss :
    (field : Bytes) (before : Option ℕ) (c : ℕ) (p : Bytes)
    → starts_with field (c ∷ p) ≡ false
    → find_line field before (c ∷ p) ≡ find_line field (some c) p
unfolding find_line
find_line-miss field before c p h = ground arith

-- A line that the field does not begin is passed over.
pub find_line-line :
    (field : Bytes) (before : Option ℕ) (line p : Bytes)
    → Without b'\n' field
    → Without b'\n' line
    → starts_with field line ≡ false
    → find_line field before (line ++ b'\n' ∷ p) ≡ find_line field (some b'\n') p
find_line-line field before [] p wf w h =
    find_line-miss field before b'\n' p (starts_with-line field [] p wf h)
find_line-line field before (c ∷ line) p wf w h =
    find_line-miss field before c (line ++ b'\n' ∷ p) (starts_with-line field (c ∷ line) p wf h)
    ∙ find_line-inside field (some c) line p w.0 w.1

-- Complete lines in front of a text.
