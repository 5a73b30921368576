-- ===== src/NdkDepends/Elf/Strings.antt =====
-- The strings and the sections that the ELF parser of ndk-depends.cc finds.
use ndk.Base.{
  ℕ, zero, suc, ◌+◌, ◌-◌, ◌%◌, ◌^◌, ◌≤◌, ◌<◌, true, false, [], ◌∷◌, Bytes, length, take, drop, ltb,
  leb, ◌==◌, ◌≡◌, ◌≢◌, refl, arith, Bool-cases, inl, inr, ◌⊎◌,
}
use ndk.Base.CString.{c_string}
use native.Mathlib.Nat.{mod-eq_of_lt}
use ndk.NdkDepends.Reader.{Reader, get_bytes_at}
use ndk.NdkDepends.Elf.{
  ElfClass, elf32, elf64, off_mod, get_section_offset_by_index, string_loop, get_string_by_index,
}

-- The rest of a file from a position inside it.
drop-cases :
    (pos : ℕ) (file : Bytes)
    → ((drop pos file ≡ []) × (length file ≤ pos))
      ⊎ ((b : ℕ) × (rest : Bytes) × (drop pos file ≡ b ∷ rest)
          × (drop (suc pos) file ≡ rest)
          × (pos < length file))
drop-cases zero [] = inl (refl, omega arith)
drop-cases zero (b ∷ file) = inr (b, file, refl, refl, omega arith)
drop-cases (suc pos) [] = inl (refl, omega arith)
drop-cases (suc pos) (b ∷ file) = elim (drop-cases pos file) [
  | inl (e, h) ↦ inl (e, omega arith)
  | inr (c, rest, e, e', h) ↦ inr (c, rest, e, e', omega arith)
]

next_position :
    (elf : ElfClass) (pos : ℕ) → suc pos < off_mod elf → (pos + 1) % off_mod elf ≡ suc pos
next_position elf32 pos h = omega arith
next_position elf64 pos h = omega arith

module _ (elf : ElfClass) (reader : Reader) where
  string_loop-c_string :
      (n pos : ℕ)
      → pos + n < off_mod elf
      → pos + n < 2 ^ 63
      → string_loop elf reader pos n ≡ c_string (take n (drop pos reader.file))
  unfolding string_loop get_bytes_at
  string_loop-c_string zero pos h h' = refl
  string_loop-c_string (suc n) pos h h' = elim (drop-cases pos reader.file) [
    | inl (e, far) ↦
        let near : ltb pos (2 ^ 63) ≡ true = ground arith in
        let past : leb (pos + 1) (length reader.file) ≡ false = ground arith in rw (near, past, e)
    | inr (b, rest, e, e', inside) ↦
        let near : ltb pos (2 ^ 63) ≡ true = ground arith in
        let within : leb (pos + 1) (length reader.file) ≡ true = ground arith in
        let further = string_loop-c_string n (suc pos) (omega arith) (omega arith) in
        rw (near, within, e, next_position elf pos (omega arith), further, e')
  ]

-- Let the string table's index be found in the section table, and its content lie below 2 ^ 63 and
-- below the largest offset. The string at an index inside the section is the C string that stands
-- there in the file: it ends at a NUL, at the end of the section or at the end of the file. An
-- index behind the section gives an empty string.
pub get_string_by_index-c_string :
    (elf : ElfClass) (reader : Reader) (str_index str_table_index table size : ℕ)
    → str_table_index ≢ 0
    → get_section_offset_by_index elf reader str_table_index ≡ (table, size)
    → table ≢ 0
    → table + size < off_mod elf
    → table + size < 2 ^ 63
    → get_string_by_index elf reader str_index str_table_index
      ≡ c_string (take (size - str_index) (drop (table + str_index) reader.file))
unfolding get_string_by_index
get_string_by_index-c_string elf reader str_index index table size found section there low below =
    let index_test : (index == 0) ≡ false = ground arith in
    let table_test : (table == 0) ≡ false = ground arith in
    elim (Bool-cases (leb size str_index)) [
      | inl behind ↦
          let none_left : size - str_index ≡ 0 = ground arith in
          rw (section, index_test, table_test, behind, none_left)
      | inr inside ↦
          let sum : (table + str_index) % off_mod elf ≡ table + str_index =
            mod-eq_of_lt (ground arith) in
          rw (section, index_test, table_test, inside, sum)
            (string_loop-c_string elf reader (size - str_index) (table + str_index) (ground arith)
              (ground arith))
    ]
