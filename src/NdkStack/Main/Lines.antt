-- ===== src/NdkStack/Main/Lines.antt =====
-- How the loop of `main` in ndk-stack.c cuts a file into lines.
use ndk.Base.{
  ℕ, zero, suc, ◌≤◌, ◌<◌, ◌≡◌, refl, ap, ◌∙◌, false, ◌||◌, some, List, [], ◌∷◌, ◌++◌, Bytes, length,
  length-append, All, ◌==◌, Bool-cases, inl, inr, arith,
}
use ndk.NdkStack.Main.{fgets, chop, line_loop, dump_lines}

-- A line with its end fits the buffer, and holds no byte at which it is cut.
abbrev pub IsLine : Bytes → Type 0
IsLine line = All (λ c. (c == 0 || c == b'\r' || c == b'\n') ≡ false) line × (length line < 2047)

abbrev pub join_lines : List Bytes → Bytes
join_lines [] = []
join_lines (line ∷ lines) = line ++ b'\n' ∷ join_lines lines

fgets-line :
    (n : ℕ) (line rest : Bytes)
    → All (λ c. (c == 0 || c == b'\r' || c == b'\n') ≡ false) line
    → length line < n
    → fgets n (line ++ b'\n' ∷ rest) ≡ (line ++ b'\n' ∷ [], rest)
fgets-line zero line rest h lt = absurd (omega arith)
fgets-line (suc n) [] rest h lt = refl
fgets-line (suc n) (c ∷ line) rest h lt =
    let no_end : (c == b'\n') ≡ false = ground (arith, h.0) in
    rw (no_end, fgets-line n line rest h.1 (omega arith)) refl

chop-line :
    (line rest : Bytes)
    → All (λ c. (c == 0 || c == b'\r' || c == b'\n') ≡ false) line
    → chop (line ++ b'\n' ∷ rest) ≡ line
chop-line [] rest h = refl
chop-line (c ∷ line) rest h = rw h.0 (ap (◌∷◌ c) (chop-line line rest h.1))

fgets-le : (n : ℕ) (file : Bytes) → length (fgets n file).1 ≤ length file
fgets-le zero [] = omega arith
fgets-le (suc n) [] = omega arith
fgets-le zero (c ∷ file) = omega arith
fgets-le (suc n) (c ∷ file) = elim (Bool-cases (c == b'\n')) [
  | inl e ↦ rw e (omega arith)
  | inr e ↦ rw e (omega (arith, fgets-le n file))
]

fgets-lt : (n : ℕ) (c : ℕ) (file : Bytes) → length (fgets (suc n) (c ∷ file)).1 ≤ length file
fgets-lt n c file = elim (Bool-cases (c == b'\n')) [
  | inl e ↦ rw e (omega arith)
  | inr e ↦ rw e (fgets-le n file)
]

line_loop-step :
    (f c : ℕ) (file : Bytes) (lines : List Bytes)
    → line_loop f (fgets 2047 (c ∷ file)).1 ≡ some lines
    → line_loop (suc f) (c ∷ file) ≡ some (chop (fgets 2047 (c ∷ file)).0 ∷ lines)
unfolding line_loop
line_loop-step f c file lines h = rw (h, line_loop) refl

line_loop_total :
    (f : ℕ) (file : Bytes)
    → length file < f
    → (lines : List Bytes) × (line_loop f file ≡ some lines)
line_loop_total zero file h = absurd (omega arith)
line_loop_total (suc f) [] h = ([], unfold line_loop in refl)
line_loop_total (suc f) (c ∷ file) h =
    let (lines, e) =
      line_loop_total f (fgets 2047 (c ∷ file)).1 (omega (arith, fgets-lt 2046 c file)) in
    (chop (fgets 2047 (c ∷ file)).0 ∷ lines, line_loop-step f c file lines e)

line_loop-first :
    (f : ℕ) (line rest : Bytes) (lines : List Bytes)
    → IsLine line
    → line_loop f rest ≡ some lines
    → line_loop (suc f) (line ++ b'\n' ∷ rest) ≡ some (line ∷ lines)
line_loop-first f [] rest lines i h =
    line_loop-step f b'\n' rest lines
      (ap (λ p. line_loop f p.1) (fgets-line 2047 [] rest tt (omega arith)) ∙ h)
line_loop-first f (c ∷ line) rest lines i h =
    let cut = fgets-line 2047 (c ∷ line) rest i.0 i.1 in
    line_loop-step f c (line ++ b'\n' ∷ rest) lines (ap (λ p. line_loop f p.1) cut ∙ h)
    ∙ ap (λ p. some (chop p.0 ∷ lines)) cut
    ∙ ap (λ l. some (l ∷ lines)) (chop-line (c ∷ line) [] i.0)

line_loop-join_lines :
    (lines : List Bytes) (f : ℕ)
    → All IsLine lines
    → length (join_lines lines) < f
    → line_loop f (join_lines lines) ≡ some lines
line_loop-join_lines lines zero all h = absurd (omega arith)
line_loop-join_lines [] (suc f) all h = unfold line_loop in refl
line_loop-join_lines (line ∷ lines) (suc f) all h =
    line_loop-first f line (join_lines lines) lines all.0 (
      line_loop-join_lines lines f all.1
        (omega (arith, length-append {0} line (b'\n' ∷ join_lines lines))))

-- The loop over a file ends, whatever the file holds.
dump_lines_total : (file : Bytes) → (lines : List Bytes) × (dump_lines file ≡ some lines)
unfolding dump_lines
dump_lines_total file = line_loop_total _ file (omega arith)

-- A file of lines that each fit the buffer with their newline, and hold no other newline, carriage
-- return or NUL, is handed to the parser line by line, without the newlines.
pub dump_lines-join_lines :
    (lines : List Bytes) → All IsLine lines → dump_lines (join_lines lines) ≡ some lines
unfolding dump_lines
dump_lines-join_lines lines all = line_loop-join_lines lines _ all (omega arith)
