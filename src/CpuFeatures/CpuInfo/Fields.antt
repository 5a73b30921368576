-- ===== src/CpuFeatures/CpuInfo/Fields.antt =====
-- `extract_cpuinfo_field` of cpu-features.c against the lines of the file.
pub mod Search
use ndk.Base.{
  ℕ, zero, suc, ◌+◌, ◌≤◌, ◌<◌, ◌≡◌, ◌≢◌, refl, ap, sym, ◌∙◌, Bool, true, false, ◌&&◌, Option, none,
  some, List, [], ◌∷◌, ◌++◌, Bytes, length, length-drop, drop, All, ◌==◌, if◌then◌else◌, ==_refl,
  Bool-cases, Option-cases, inl, inr, arith,
}
use ndk.Base.CString.{c_string, starts_with}
use ndk.Base.Checked.{ok, out_of_bounds, out_of_fuel}
use ndk.CpuFeatures.CpuInfo.{
  memmem, starts_line, last_byte, field_loop, memchr, line_of, value_at, copy_line, field_value,
  extract_cpuinfo_field,
}
use ndk.CpuFeatures.CpuInfo.Fields.Search.{
  Without, find_line, find_line-here, field_loop-find_line, starts_with_self, find_line-line,
}

abbrev pub lines_then : List Bytes → Bytes → Bytes
lines_then [] p = p
lines_then (line ∷ ls) p = line ++ b'\n' ∷ lines_then ls p

-- Lines that the field does not begin.
abbrev pub OtherLines : Bytes → List Bytes → Type 0
OtherLines field = All (λ line. Without b'\n' line × (starts_with field line ≡ false))

find_line-lines :
    (c : ℕ) (cs : Bytes) (before : Option ℕ) (ls : List Bytes) (p : Bytes)
    → Without b'\n' (c ∷ cs)
    → starts_line before ≡ true
    → OtherLines (c ∷ cs) ls
    → find_line (c ∷ cs) before (lines_then ls ((c ∷ cs) ++ p)) ≡ some ((c ∷ cs) ++ p)
find_line-lines c cs before [] p w h o =
    find_line-here (c ∷ cs) before c (cs ++ p) h (starts_with_self (c ∷ cs) p)
find_line-lines c cs before (line ∷ ls) p w h o =
    find_line-line (c ∷ cs) before line (lines_then ls ((c ∷ cs) ++ p)) w o.0.0 o.0.1
    ∙ find_line-lines c cs (some b'\n') ls p w refl o.1

drop-append : (xs p : Bytes) → drop (length xs) (xs ++ p) ≡ p
drop-append [] p = refl
drop-append (x ∷ xs) p = drop-append xs p

memchr-append : (b : ℕ) (gap p : Bytes) → Without b gap → memchr b (gap ++ b ∷ p) ≡ some (b ∷ p)
memchr-append b [] p w = rw (==_refl b) refl
memchr-append b (c ∷ gap) p w = rw w.0 (memchr-append b gap p w.1)

line_of-append : (value p : Bytes) → Without b'\n' value → line_of (value ++ b'\n' ∷ p) ≡ value
line_of-append [] p w = refl
line_of-append (c ∷ value) p w = rw w.0 (ap (◌∷◌ c) (line_of-append value p w.1))

c_string-Without : (value : Bytes) → Without 0 value → c_string value ≡ value
c_string-Without [] w = refl
c_string-Without (c ∷ value) w = rw w.0 (ap (◌∷◌ c) (c_string-Without value w.1))

extract-at :
    (alloc : ℕ → Bool) (c : ℕ) (cs buffer p q line : Bytes)
    → field_loop (suc (length buffer)) c cs none buffer ≡ some (some p)
    → memchr b':' (drop (suc (length cs)) p) ≡ some q
    → value_at (some q) ≡ ok (some line)
    → extract_cpuinfo_field alloc buffer c cs ≡ ok (copy_line alloc (some line))
unfolding extract_cpuinfo_field field_value
extract-at alloc c cs buffer p q line e m v = ground arith

-- When lines that the field does not begin are followed by the field, a gap without a colon, a
-- colon and a space, the value is what stands between that space and the next newline, unless
-- `malloc` fails; the field has no newline, and the value has no newline and no NUL.
pub extract_cpuinfo_field-line :
    (alloc : ℕ → Bool) (c : ℕ) (cs : Bytes) (ls : List Bytes) (gap value rest : Bytes)
    → Without b'\n' (c ∷ cs)
    → OtherLines (c ∷ cs) ls
    → Without b':' gap
    → Without b'\n' value
    → Without 0 value
    → extract_cpuinfo_field alloc
        (lines_then ls ((c ∷ cs) ++ (gap ++ b':' ∷ b' ' ∷ (value ++ b'\n' ∷ rest))))
        c
        cs
      ≡ ok (if alloc (length value + 1) then some value else none)
extract_cpuinfo_field-line alloc c cs ls gap value rest w o g v z =
    let p = gap ++ b':' ∷ b' ' ∷ (value ++ b'\n' ∷ rest) in
    let buffer = lines_then ls ((c ∷ cs) ++ p) in
    extract-at alloc c cs buffer ((c ∷ cs) ++ p) (b':' ∷ b' ' ∷ (value ++ b'\n' ∷ rest)) value
      (field_loop-find_line (suc (length buffer)) c cs none buffer w (omega arith)
        ∙ ap some (find_line-lines c cs none ls p w refl o))
      (ap (memchr b':') (drop-append (c ∷ cs) p)
        ∙ memchr-append b':' gap (b' ' ∷ (value ++ b'\n' ∷ rest)) g)
      (unfold value_at in ap (λ (t : Bytes). ok (some t)) (line_of-append value rest v))
    ∙ unfold copy_line in rw (c_string-Without value z) refl

extract-overrun :
    (alloc : ℕ → Bool) (c : ℕ) (cs buffer p : Bytes) (colon : ℕ)
    → field_loop (suc (length buffer)) c cs none buffer ≡ some (some p)
    → memchr b':' (drop (suc (length cs)) p) ≡ some (colon ∷ [])
    → extract_cpuinfo_field alloc buffer c cs ≡ out_of_bounds
unfolding extract_cpuinfo_field field_value value_at
extract-overrun alloc c cs buffer p colon e m = ground arith

-- When the first line that the field begins, for a field without a newline, ends the buffer with
-- the first colon behind the field, the byte behind the buffer is read.
extract_cpuinfo_field-overrun :
    (alloc : ℕ → Bool) (c : ℕ) (cs : Bytes) (ls : List Bytes) (gap : Bytes)
    → Without b'\n' (c ∷ cs)
    → OtherLines (c ∷ cs) ls
    → Without b':' gap
    → extract_cpuinfo_field alloc (lines_then ls ((c ∷ cs) ++ (gap ++ b':' ∷ []))) c cs
      ≡ out_of_bounds
extract_cpuinfo_field-overrun alloc c cs ls gap w o g =
    let p = gap ++ b':' ∷ [] in
    let buffer = lines_then ls ((c ∷ cs) ++ p) in
    extract-overrun alloc c cs buffer ((c ∷ cs) ++ p) b':'
      (field_loop-find_line (suc (length buffer)) c cs none buffer w (omega arith)
        ∙ ap some (find_line-lines c cs none ls p w refl o))
      (ap (memchr b':') (drop-append (c ∷ cs) p) ∙ memchr-append b':' gap [] g)

-- For a field without a newline, the search for it ends, whatever the buffer holds.
extract_cpuinfo_field-ne-out_of_fuel :
    (alloc : ℕ → Bool) (buffer : Bytes) (c : ℕ) (cs : Bytes)
    → Without b'\n' (c ∷ cs)
    → extract_cpuinfo_field alloc buffer c cs ≢ out_of_fuel
unfolding extract_cpuinfo_field field_value value_at
extract_cpuinfo_field-ne-out_of_fuel alloc buffer c cs w =
    ground (arith, field_loop-find_line (suc (length buffer)) c cs none buffer w (omega arith))
