-- ===== src/NdkDepends/Dynamic.antt =====
-- The iterator over the dynamic section, GetLibNameT, GetNeededLibsT and ElfFile of ndk-depends.cc.
pub mod Items
use ndk.Base.{
  ℕ, zero, suc, ◌+◌, ◌-◌, ◌*◌, ◌%◌, ◌&&◌, ◌||◌, Bool, true, false, not, Option, none, some, List,
  [], ◌∷◌, ◌++◌, Bytes, codes, length, take, equal, ltb, leb, ◌==◌, if◌then◌else◌,
}
use ndk.NdkDepends.Reader.{Reader, byte_at}
use ndk.NdkDepends.Elf.{
  ElfClass, elf32, elf64, off_size, off_mod, sht_dynamic, dt_needed, dt_soname, get_off_at,
  get_section_offset_by_type, get_dynamic_string_table_index, get_string_by_index,
}

-- `kEntrySize`
abbrev pub entry_size : ElfClass → ℕ
entry_size elf = 2 * off_size elf

pub record DynamicIterator : Type 0 where
  pub dyn_size : ℕ
  pub dyn_offset : ℕ
  pub started : Bool

unfoldable pub dynamic_iterator : ElfClass → Reader → DynamicIterator
dynamic_iterator elf reader =
    let (offset, size) = get_section_offset_by_type elf reader sht_dynamic in
    record { dyn_size = size; dyn_offset = offset; started = ltb size (entry_size elf) }

unfoldable pub get_next : ElfClass → DynamicIterator → Bool × DynamicIterator
get_next elf iter =
    if not iter.started
    then (true, record iter { started = true })
    else if ltb iter.dyn_size (entry_size elf)
    then (false, iter)
    else (
      true,
      record iter {
        dyn_offset = (iter.dyn_offset + entry_size elf) % off_mod elf;
        dyn_size = iter.dyn_size - entry_size elf;
      },
    )

abbrev pub get_tag : ElfClass → Reader → DynamicIterator → ℕ
get_tag elf reader iter = get_off_at elf reader iter.dyn_offset

abbrev pub get_value : ElfClass → Reader → DynamicIterator → ℕ
get_value elf reader iter = get_off_at elf reader ((iter.dyn_offset + off_size elf) % off_mod elf)

-- The `while` loop of `GetLibNameT`, on fuel.
unfoldable pub lib_name_loop : ElfClass → Reader → ℕ → ℕ → DynamicIterator → Option Bytes
lib_name_loop elf reader index zero iter = none
lib_name_loop elf reader index (suc f) iter =
    let (more, item) = get_next elf iter in
    let rest = lib_name_loop elf reader index f item in
    if not more
    then some []
    else if get_tag elf reader item == dt_soname
    then some (get_string_by_index elf reader (get_value elf reader item) index)
    else rest

-- Each round but the first makes `dyn_size_` smaller.
unfoldable pub get_lib_name_t : ElfClass → Reader → Option Bytes
get_lib_name_t elf reader =
    let iter = dynamic_iterator elf reader in
    lib_name_loop elf reader (get_dynamic_string_table_index elf reader) (suc (suc iter.dyn_size))
      iter

-- What an item adds to the result: an item's name, if it is DT_NEEDED and the name is not empty.
abbrev pub item_name : ElfClass → Reader → ℕ → DynamicIterator → List Bytes
item_name elf reader index item =
    if get_tag elf reader item == dt_needed
    then elim (get_string_by_index elf reader (get_value elf reader item) index) [
      | [] ↦ []
      | c ∷ lib_name ↦ (c ∷ lib_name) ∷ []
    ]
    else []

abbrev pub added : List Bytes → Option (List Bytes) → Option (List Bytes)
added names none = none
added names (some rest) = some (names ++ rest)

-- The `while` loop of `GetNeededLibsT`, on fuel.
unfoldable pub needed_loop : ElfClass → Reader → ℕ → ℕ → DynamicIterator → Option (List Bytes)
needed_loop elf reader index zero iter = none
needed_loop elf reader index (suc f) iter =
    let (more, item) = get_next elf iter in
    let rest = needed_loop elf reader index f item in
    if not more then some [] else added (item_name elf reader index item) rest

unfoldable pub get_needed_libs_t : ElfClass → Reader → Option (List Bytes)
get_needed_libs_t elf reader =
    let iter = dynamic_iterator elf reader in
    needed_loop elf reader (get_dynamic_string_table_index elf reader) (suc (suc iter.dyn_size))
      iter

abbrev pub elf_ident_is_elf : Bytes → Bool
elf_ident_is_elf ident =
    byte_at ident 0 == 0x7f
    && byte_at ident 1 == b'E'
    && byte_at ident 2 == b'L'
    && byte_at ident 3 == b'F'

abbrev pub elf_ident_is_big_endian : Bytes → Bool
elf_ident_is_big_endian ident = byte_at ident 5 == 2

abbrev pub elf_ident_is_64bits : Bytes → Bool
elf_ident_is_64bits ident = byte_at ident 4 == 2

-- An ElfFile that is open.
pub record ElfFile : Type 0 where
  pub reader : Reader
  pub is_64bits : Bool

-- What `Open` returns: the error, or the file.
pub data Opened : Type 0 where
  refused : Bytes → Opened
  opened : ElfFile → Opened

-- `Open` on a file's content, or none, and the text of `errno` behind a call that fails.
unfoldable pub open_content : Bytes → Option Bytes → Opened
open_content strerror none = refused strerror
open_content strerror (some content) =
    let ident = take 16 content in
    if ltb (length content) 16
    then refused strerror
    else if not (elf_ident_is_elf ident)
    then refused (codes "Not an ELF binary file")
    else opened (record {
      reader = record { file = content; big_endian = elf_ident_is_big_endian ident };
      is_64bits = elf_ident_is_64bits ident;
    })

abbrev pub class_of : ElfFile → ElfClass
class_of libfile = if libfile.is_64bits then elf64 else elf32

unfoldable pub get_lib_name : ElfFile → Option Bytes
get_lib_name libfile = get_lib_name_t (class_of libfile) libfile.reader

unfoldable pub get_needed_libs : ElfFile → Option (List Bytes)
get_needed_libs libfile = get_needed_libs_t (class_of libfile) libfile.reader
