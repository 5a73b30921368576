-- ===== src/NdkDepends/Dynamic/Items.antt =====
-- Which items of the dynamic section GetNeededLibsT and GetLibNameT of ndk-depends.cc look at.
use ndk.Base.{
  ℕ, zero, suc, ◌+◌, ◌-◌, ◌/◌, ◌%◌, ◌<◌, true, false, some, List, [], ◌++◌, Bytes, ltb, ◌==◌,
  Bool-cases, inl, inr, ◌≡◌, ap, if◌then◌else◌, arith,
}
use ndk.NdkDepends.Reader.{Reader}
use ndk.NdkDepends.Elf.{
  ElfClass, elf32, elf64, off_mod, sht_dynamic, dt_soname, get_section_offset_by_type,
  get_dynamic_string_table_index, get_string_by_index,
}
use ndk.NdkDepends.Dynamic.{
  entry_size, DynamicIterator, dynamic_iterator, get_next, get_tag, get_value, lib_name_loop,
  get_lib_name_t, item_name, added, needed_loop, get_needed_libs_t, ElfFile, get_lib_name,
  get_needed_libs, class_of,
}

-- The item at an offset.
abbrev pub item_at : ℕ → DynamicIterator
item_at offset = record { dyn_size = 0; dyn_offset = offset; started = true }

-- The names that `n` items in a row give.
unfoldable pub names_from : ElfClass → Reader → ℕ → ℕ → ℕ → List Bytes
names_from elf reader index zero offset = []
names_from elf reader index (suc n) offset =
    item_name elf reader index (item_at offset)
    ++ names_from elf reader index n ((offset + entry_size elf) % off_mod elf)

fewer : (elf : ElfClass) (size : ℕ) → ltb size (entry_size elf) ≡ true → size / entry_size elf ≡ 0
fewer elf32 size h = ground arith
fewer elf64 size h = ground arith

one_fewer :
    (elf : ElfClass) (size : ℕ)
    → ltb size (entry_size elf) ≡ false
    → (size / entry_size elf ≡ suc ((size - entry_size elf) / entry_size elf))
      × (size - entry_size elf < size)
one_fewer elf32 size h = ground arith
one_fewer elf64 size h = ground arith

module _ (elf : ElfClass) (reader : Reader) (index : ℕ) where
  started_loop :
      (f size offset : ℕ)
      → size < f
      → needed_loop elf reader index f
          (record { dyn_size = size; dyn_offset = offset; started = true })
        ≡ some (
            names_from elf reader index
              (size / entry_size elf)
              ((offset + entry_size elf) % off_mod elf))
  unfolding needed_loop get_next names_from
  started_loop zero size offset h = elim h [ ]
  started_loop (suc f) size offset h = elim (Bool-cases (ltb size (entry_size elf))) [
    | inl few ↦ rw (few, fewer elf size few)
    | inr more ↦
        let (count, less) = one_fewer elf size more in
        rw (more, count)
          (ap (added _) (
            started_loop f (size - entry_size elf) ((offset + entry_size elf) % off_mod elf)
              (omega arith)))
  ]

  lib_name_total :
      (f size offset : ℕ)
      → size < f
      → (name : Bytes) × (lib_name_loop elf reader index f
            (record { dyn_size = size; dyn_offset = offset; started = true })
          ≡ some name)
  unfolding lib_name_loop get_next
  lib_name_total zero size offset h = elim h [ ]
  lib_name_total (suc f) size offset h = elim (Bool-cases (ltb size (entry_size elf))) [
    | inl few ↦ ([], rw few)
    | inr more ↦
        let next = (offset + entry_size elf) % off_mod elf in
        let (name, e) =
          lib_name_total f (size - entry_size elf) next
            (let (count, less) = one_fewer elf size more in omega arith) in
        elim (Bool-cases (get_tag elf reader (item_at next) == dt_soname)) [
          | inl found ↦ (
            get_string_by_index elf reader (get_value elf reader (item_at next)) index,
            rw (more, found),
          )
          | inr other ↦ (name, rw (more, other, e))
        ]
  ]

-- Where the dynamic section has a size of less than one entry no item is looked at. Otherwise the
-- names are those of one item more than fit into the section: the first item behind its end is read
-- too. The loop always ends.
pub get_needed_libs_t-names :
    (elf : ElfClass) (reader : Reader)
    → (let (offset, size) = get_section_offset_by_type elf reader sht_dynamic in
        let index = get_dynamic_string_table_index elf reader in
        get_needed_libs_t elf reader
        ≡ some (
            if ltb size (entry_size elf)
            then []
            else names_from elf reader index (suc (size / entry_size elf)) offset))
unfolding get_needed_libs_t dynamic_iterator needed_loop get_next names_from
get_needed_libs_t-names elf reader =
    let offset = (get_section_offset_by_type elf reader sht_dynamic).0 in
    let size = (get_section_offset_by_type elf reader sht_dynamic).1 in
    elim (Bool-cases (ltb size (entry_size elf))) [
      | inl few ↦ rw few
      | inr more ↦ rw more (
          ap (added _) (
            started_loop elf reader (get_dynamic_string_table_index elf reader) (suc size) size
              offset (omega arith)))
    ]

get_lib_name_t_total :
    (elf : ElfClass) (reader : Reader) → (name : Bytes) × (get_lib_name_t elf reader ≡ some name)
unfolding get_lib_name_t dynamic_iterator lib_name_loop get_next
get_lib_name_t_total elf reader =
    let offset = (get_section_offset_by_type elf reader sht_dynamic).0 in
    let size = (get_section_offset_by_type elf reader sht_dynamic).1 in
    let index = get_dynamic_string_table_index elf reader in
    elim (Bool-cases (ltb size (entry_size elf))) [
      | inl few ↦ ([], rw few)
      | inr more ↦
          let (name, e) = lib_name_total elf reader index (suc size) size offset (omega arith) in
          elim (Bool-cases (get_tag elf reader (item_at offset) == dt_soname)) [
            | inl found ↦ (
              get_string_by_index elf reader (get_value elf reader (item_at offset)) index,
              rw (more, found),
            )
            | inr other ↦ (name, rw (more, other, e))
          ]
    ]

pub get_lib_name_total : (libfile : ElfFile) → (name : Bytes) × (get_lib_name libfile ≡ some name)
unfolding get_lib_name
get_lib_name_total libfile = get_lib_name_t_total (class_of libfile) libfile.reader

pub get_needed_libs_total :
    (libfile : ElfFile) → (names : List Bytes) × (get_needed_libs libfile ≡ some names)
unfolding get_needed_libs
get_needed_libs_total libfile = (_, get_needed_libs_t-names (class_of libfile) libfile.reader)
