-- ===== src/NdkDepends/Search.antt =====
-- How ndk-depends.cc finds libraries: the names it knows, FindLibraryPath, and the search path of
-- the host. What the system answers is a parameter.
pub mod Laws
use ndk.Base.{
  ℕ, zero, suc, ◌+◌, ◌-◌, ◌&&◌, ◌||◌, Bool, true, false, not, Option, none, some, List, [], ◌∷◌,
  ◌++◌, Bytes, codes, length, take, drop, equal, ltb, ◌==◌, if◌then◌else◌,
}
use ndk.Base.CString.{c_string, starts_with}
use ndk.NdkStack.Main.{fgets}
use ndk.NdkDepends.Dynamic.{Opened, open_content}

pub data FileType : Type 0 where
  regular directory other : FileType

-- The files by name: their contents, the text of `errno` where one cannot be opened or is too
-- short, what `stat` says, and what `glob` finds.
pub record System : Type 0 where
  pub fopen : Bytes → Option Bytes
  pub strerror : Bytes → Bytes
  pub stat : Bytes → Option FileType
  pub glob : Bytes → List Bytes

abbrev pub elf_file_open : System → Bytes → Opened
elf_file_open system path = open_content (system.strerror path) (system.fopen path)

-- `S_ISREG` and `S_ISDIR` of a `stat` that succeeds.
abbrev pub is_regular : Option FileType → Bool
is_regular (some regular) = true
is_regular _ = false

abbrev pub is_directory : Option FileType → Bool
is_directory (some directory) = true
is_directory _ = false

-- One of the names is equal to the library's.
abbrev pub listed : Bytes → List Bytes → Bool
listed libname [] = false
listed libname (name ∷ names) = equal libname name || listed libname names

abbrev pub k_android_system_libs : List Bytes
k_android_system_libs =
    codes "libc.so"
    ∷ codes "libdl.so"
    ∷ codes "liblog.so"
    ∷ codes "libm.so"
    ∷ codes "libstdc++.so"
    ∷ codes "libz.so"
    ∷ codes "libandroid.so"
    ∷ codes "libjnigraphics.so"
    ∷ codes "libEGL.so"
    ∷ codes "libGLESv1_CM.so"
    ∷ codes "libGLESv2.so"
    ∷ codes "libOpenSLES.so"
    ∷ codes "libOpenMAXAL.so"
    ∷ []

unfoldable pub is_android_system_lib : Bytes → Bool
is_android_system_lib libname = listed libname k_android_system_libs

unfoldable pub is_android_ndk_compatible_lib : Bytes → Bool
is_android_ndk_compatible_lib libname =
    ltb 6 (length libname)
    && equal (take 3 libname) (codes "lib")
    && equal (drop (length libname - 3) libname) (codes ".so")

-- Whether the last byte is neither `/` nor `\`.
abbrev pub wants_slash : Bytes → Bool
wants_slash [] = false
wants_slash (c ∷ []) = not (c == b'/' || c == 92)
wants_slash (c ∷ d ∷ path) = wants_slash (d ∷ path)

abbrev pub file_path : Bytes → Bytes → Bytes
file_path path libname = (if wants_slash path then path ++ b'/' ∷ [] else path) ++ libname

unfoldable pub find_library_path : System → Bytes → List Bytes → Option Bytes
find_library_path system libname [] = none
find_library_path system libname ([] ∷ search_paths) = find_library_path system libname search_paths
find_library_path system libname ((c ∷ path) ∷ search_paths) =
    let rest = find_library_path system libname search_paths in
    if is_regular (system.stat (file_path (c ∷ path) libname))
    then some (file_path (c ∷ path) libname)
    else rest

abbrev pub is_ld_so_conf_separator : ℕ → Bool
is_ld_so_conf_separator ch =
    ch == b' ' || ch == 9 || ch == 13 || ch == 10 || ch == b',' || ch == b':'

abbrev pub skip_separators : Bytes → Bytes
skip_separators [] = []
skip_separators (c ∷ s) = if is_ld_so_conf_separator c then skip_separators s else c ∷ s

abbrev pub ends_item : ℕ → Bool
ends_item c = is_ld_so_conf_separator c || c == b'#'

-- `String(begin, len)`, and the text from `next_pos` on.
abbrev pub conf_item : Bytes → Bytes
conf_item [] = []
conf_item (c ∷ s) = if ends_item c then [] else c ∷ conf_item s

abbrev pub behind_item : Bytes → Bytes
behind_item [] = []
behind_item (c ∷ s) = if ends_item c then c ∷ s else behind_item s

-- What two parts add to `lib_search_path`, where both return.
abbrev pub both : Option (List Bytes) → Option (List Bytes) → Option (List Bytes)
both none b = none
both (some a) none = none
both (some a) (some b) = some (a ++ b)

abbrev pub include_all : (Bytes → Option (List Bytes)) → List Bytes → Option (List Bytes)
include_all read_conf [] = some []
include_all read_conf (filepath ∷ paths) = both (read_conf filepath) (include_all read_conf paths)

abbrev pub directory_item : System → Bytes → List Bytes
directory_item system dirpath = if is_directory (system.stat dirpath) then dirpath ∷ [] else []

-- The loop over the items of a line, on fuel; `read_conf` is the call for an included file.
unfoldable pub item_loop :
    System → (Bytes → Option (List Bytes)) → ℕ → Bool → Bytes → Option (List Bytes)
item_loop system read_conf zero prev_is_include begin = none
item_loop system read_conf (suc f) prev_is_include begin =
    let item = conf_item (skip_separators begin) in
    let next_pos = behind_item (skip_separators begin) in
    let included =
      both (include_all read_conf (system.glob item))
        (item_loop system read_conf f false next_pos) in
    let to_include = item_loop system read_conf f true next_pos in
    let searched =
      both (some (directory_item system item)) (item_loop system read_conf f false next_pos) in
    elim (skip_separators begin) [
      | [] ↦ some []
      | c ∷ s ↦
          if c == b'#'
          then some []
          else if prev_is_include
          then included
          else if equal item (codes "include")
          then to_include
          else searched
    ]

-- `while (end > begin && end[-1] == '\n') end--;`
abbrev pub without_newlines : Bytes → Bytes
without_newlines [] = []
without_newlines (c ∷ s) = elim (without_newlines s) [
  | [] ↦ if c == b'\n' then [] else c ∷ []
  | d ∷ rest ↦ c ∷ d ∷ rest
]

-- The loop over the lines of a file, on fuel; `char line[1024]` holds 1023 bytes of a line.
unfoldable pub conf_loop : System → (Bytes → Option (List Bytes)) → ℕ → Bytes → Option (List Bytes)
conf_loop system read_conf zero file = none
conf_loop system read_conf (suc f) [] = some []
conf_loop system read_conf (suc f) (c ∷ file) =
    let line = without_newlines (c_string (fgets 1023 (c ∷ file)).0) in
    both (item_loop system read_conf (suc (length line)) false line)
      (conf_loop system read_conf f (fgets 1023 (c ∷ file)).1)

-- `AddHostLdSoConfPaths`, on fuel for the depth of the includes: what it adds to the search path.
unfoldable pub add_host_ld_so_conf_paths : System → ℕ → Bytes → Option (List Bytes)
add_host_ld_so_conf_paths system zero path = none
add_host_ld_so_conf_paths system (suc depth) path = elim (system.fopen path) [
  | none ↦ some []
  | some file ↦ conf_loop system (add_host_ld_so_conf_paths system depth) (suc (length file)) file
]

-- The text up to the next colon, and behind it.
abbrev pub path_item : Bytes → Bytes
path_item [] = []
path_item (c ∷ s) = if c == b':' then [] else c ∷ path_item s

abbrev pub behind_colon : Bytes → Bytes
behind_colon [] = []
behind_colon (c ∷ s) = if c == b':' then s else behind_colon s

-- An empty item is the current directory.
abbrev pub path_of_item : Bytes → Bytes
path_of_item [] = b'.' ∷ []
path_of_item (c ∷ item) = c ∷ item

-- The loop over LD_LIBRARY_PATH, on fuel.
unfoldable pub library_path_loop : ℕ → Bytes → Option (List Bytes)
library_path_loop zero pos = none
library_path_loop (suc f) [] = some []
library_path_loop (suc f) (c ∷ pos) =
    both (some (path_of_item (path_item (c ∷ pos)) ∷ []))
      (library_path_loop f (behind_colon (c ∷ pos)))

abbrev pub library_path : Option Bytes → Option (List Bytes)
library_path none = some []
library_path (some env) = library_path_loop (suc (length env)) env

-- `depth` bounds the files that include one another.
unfoldable pub add_host_library_paths : System → ℕ → Option Bytes → Option (List Bytes)
add_host_library_paths system depth env =
    both (library_path env) (add_host_ld_so_conf_paths system depth (codes "/etc/ld.so.conf"))
