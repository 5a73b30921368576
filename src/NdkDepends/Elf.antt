-- ===== src/NdkDepends/Elf.antt =====
-- The ELF parser of ndk-depends.cc: the template ElfParser and its section iterator, the iterator
-- over the dynamic section, and what ElfFile reads. The template's argument is a value.
pub mod Strings
use ndk.Base.{
  ℕ, zero, suc, ◌+◌, ◌-◌, ◌*◌, ◌%◌, ◌^◌, ◌&&◌, ◌||◌, Bool, true, false, not, Option, none, some,
  List, [], ◌∷◌, ◌++◌, Bytes, codes, length, take, equal, ltb, leb, ◌==◌, if◌then◌else◌,
}
use ndk.NdkDepends.Reader.{Reader, byte_at, get_bytes_at, get_u16_at, get_u32_at, get_u64_at}

-- The classes `Elf32` and `Elf64`.
pub data ElfClass : Type 0 where
  elf32 : ElfClass
  elf64 : ElfClass

-- `sizeof(Off)`, and the number of values of an `Off`.
abbrev pub off_size : ElfClass → ℕ
off_size elf32 = 4
off_size elf64 = 8

abbrev pub off_mod : ElfClass → ℕ
off_mod elf32 = 2 ^ 32
off_mod elf64 = 2 ^ 64

-- `offsetof(ElfHeader, e_shoff)` and so on.
abbrev pub e_shoff : ElfClass → ℕ
e_shoff elf32 = 32
e_shoff elf64 = 40

abbrev pub e_shentsize : ElfClass → ℕ
e_shentsize elf32 = 46
e_shentsize elf64 = 58

abbrev pub e_shnum : ElfClass → ℕ
e_shnum elf32 = 48
e_shnum elf64 = 60

-- `offsetof(Shdr, sh_type)` and so on, and `sizeof(Shdr)`.
abbrev pub sh_type : ElfClass → ℕ
sh_type elf = 4

abbrev pub sh_offset : ElfClass → ℕ
sh_offset elf32 = 16
sh_offset elf64 = 24

abbrev pub sh_size : ElfClass → ℕ
sh_size elf32 = 20
sh_size elf64 = 32

abbrev pub sh_link : ElfClass → ℕ
sh_link elf32 = 24
sh_link elf64 = 40

abbrev pub shdr_size : ElfClass → ℕ
shdr_size elf32 = 40
shdr_size elf64 = 64

abbrev pub sht_dynamic : ℕ
sht_dynamic = 6

abbrev pub dt_needed : ℕ
dt_needed = 1

abbrev pub dt_soname : ℕ
dt_soname = 14

-- `GetAddrAt`, and so `GetOffAt`.
unfoldable pub get_off_at : ElfClass → Reader → ℕ → ℕ
get_off_at elf32 reader pos = get_u32_at reader pos
get_off_at elf64 reader pos = get_u64_at reader pos

-- `SectionIterator`
pub record SectionIterator : Type 0 where
  pub table_offset : ℕ
  pub table_count : ℕ
  pub table_entry_size : ℕ

unfoldable pub section_iterator : ElfClass → Reader → SectionIterator
section_iterator elf reader =
    let entry_size = get_u16_at reader (e_shentsize elf) in
    record {
      table_offset = get_off_at elf reader (e_shoff elf);
      table_count = if ltb entry_size (shdr_size elf) then 0 else get_u16_at reader (e_shnum elf);
      table_entry_size = entry_size;
    }

-- `table_offset_ += table_entry_size_; table_count_ -= 1`
abbrev pub behind_entry : ElfClass → SectionIterator → ℕ → SectionIterator
behind_entry elf iter count = record iter {
  table_offset = (iter.table_offset + iter.table_entry_size) % off_mod elf;
  table_count = count;
}

abbrev pub take_entry : ElfClass → SectionIterator → ℕ → ℕ × SectionIterator
take_entry elf iter zero = (0, iter)
take_entry elf iter (suc count) = (iter.table_offset, behind_entry elf iter count)

unfoldable pub next_offset : ElfClass → SectionIterator → ℕ × SectionIterator
next_offset elf iter = take_entry elf iter iter.table_count

-- `Skip` with `n` for `table_count_`; `count` is not negative here.
unfoldable pub skip_loop : ElfClass → ℕ → ℕ → SectionIterator → SectionIterator
skip_loop elf n zero iter = iter
skip_loop elf zero (suc count) iter = iter
skip_loop elf (suc n) (suc count) iter = skip_loop elf n count (behind_entry elf iter n)

-- An `int`, as its bit pattern, that is negative counts as 0.
unfoldable pub skip : ElfClass → ℕ → SectionIterator → SectionIterator
skip elf count iter = if ltb count (2 ^ 31) then skip_loop elf iter.table_count count iter else iter

-- The loop `for (;;)` that looks for a section of a type, with `n` for `table_count_`: its header.
unfoldable pub section_loop : ElfClass → Reader → ℕ → ℕ → SectionIterator → Option ℕ
section_loop elf reader table_type zero iter = none
section_loop elf reader table_type (suc n) iter =
    let rest = section_loop elf reader table_type n (behind_entry elf iter n) in
    if iter.table_offset == 0
    then none
    else if get_u32_at reader ((iter.table_offset + sh_type elf) % 2 ^ 64) == table_type
    then some iter.table_offset
    else rest

unfoldable pub find_section : ElfClass → Reader → ℕ → Option ℕ
find_section elf reader table_type =
    let iter = section_iterator elf reader in
    section_loop elf reader table_type iter.table_count iter

-- A section's offset and size, from its header.
abbrev pub section_of : ElfClass → Reader → ℕ → ℕ × ℕ
section_of elf reader table_offset = (
  get_off_at elf reader ((table_offset + sh_offset elf) % 2 ^ 64),
  get_off_at elf reader ((table_offset + sh_size elf) % 2 ^ 64),
)

-- The offset and `*size`, which is 0 before the call.
unfoldable pub get_section_offset_by_type : ElfClass → Reader → ℕ → ℕ × ℕ
get_section_offset_by_type elf reader table_type = elim (find_section elf reader table_type) [
  | none ↦ (0, 0)
  | some table_offset ↦ section_of elf reader table_offset
]

unfoldable pub get_dynamic_string_table_index : ElfClass → Reader → ℕ
get_dynamic_string_table_index elf reader = elim (find_section elf reader sht_dynamic) [
  | none ↦ 0
  | some table_offset ↦ get_u32_at reader ((table_offset + sh_link elf) % 2 ^ 64)
]

unfoldable pub get_section_offset_by_index : ElfClass → Reader → ℕ → ℕ × ℕ
get_section_offset_by_index elf reader sec_index =
    let (table_offset, _) = next_offset elf (skip elf sec_index (section_iterator elf reader)) in
    if table_offset == 0 then (0, 0) else section_of elf reader table_offset

-- A byte that was read goes before the rest; the string ends where there is none, and at a NUL.
abbrev pub until_nul : Option Bytes → Bytes → Bytes
until_nul none rest = []
until_nul (some p) rest = if byte_at p 0 == 0 then [] else byte_at p 0 ∷ rest

-- The `while` loop of `GetStringByIndex`, with `str_table_size` rounds left.
unfoldable pub string_loop : ElfClass → Reader → ℕ → ℕ → Bytes
string_loop elf reader str_table zero = []
string_loop elf reader str_table (suc size) =
    let rest = string_loop elf reader ((str_table + 1) % off_mod elf) size in
    until_nul (get_bytes_at reader.file str_table 1) rest

unfoldable pub get_string_by_index : ElfClass → Reader → ℕ → ℕ → Bytes
get_string_by_index elf reader str_index str_table_index =
    let (str_table, str_table_size) = get_section_offset_by_index elf reader str_table_index in
    if str_table_index == 0
    then []
    else if str_table == 0 || leb str_table_size str_index
    then []
    else string_loop elf reader ((str_table + str_index) % off_mod elf) (str_table_size - str_index)
