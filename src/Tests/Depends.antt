-- ===== src/Tests/Depends.antt =====
-- Uses of the theorems on ndk-depends.cc on concrete graphs and files.
use ndk.Base.{
  ℕ, zero, suc, ◌+◌, ◌<◌, ◌-◌, ◌^◌, ◌≡◌, inl, inr, refl, sym, ap, ◌∙◌, none, some, List, [], ◌∷◌,
  ◌++◌, Bytes, true, false, Bool-cases, codes, equal, if◌then◌else◌, arith, length, take, drop,
}
use ndk.Base.CString.{c_string}
use ndk.NdkDepends.Paths.{path_last_dirsep, path_dirname, path_basename}
use ndk.NdkDepends.Paths.Parts.{path_parts}
use ndk.NdkDepends.Reader.{
  Reader, get_u16_at, get_u32_at, get_u64_at, get_u16_le, get_u32_le, get_bytes_at,
}
use ndk.NdkDepends.Reader.RoundTrip.{low_first, get_at-encoded}
use ndk.NdkDepends.Elf.{
  elf32, section_iterator, next_offset, skip, skip_loop, get_off_at, section_loop, find_section,
  get_section_offset_by_type, get_section_offset_by_index, get_dynamic_string_table_index,
  string_loop, get_string_by_index,
}
use ndk.NdkDepends.Elf.Strings.{get_string_by_index-c_string}
use ndk.NdkDepends.Dynamic.{
  get_needed_libs_t, get_lib_name_t, lib_name_loop, needed_loop, dynamic_iterator, get_next,
  open_content, get_lib_name, get_needed_libs,
}
use ndk.NdkDepends.Dynamic.Items.{names_from, get_needed_libs_t-names}
use ndk.NdkDepends.Search.{System, regular, is_android_system_lib, find_library_path, library_path}
use ndk.NdkDepends.Search.Laws.{IsFirst, find_library_path-IsFirst, library_path-join}
use ndk.NdkDepends.Graph.Complete.{build_dependency_graph-IsComplete}
use ndk.NdkDepends.Graph.Promise.{Covers, IsComplete}
use ndk.NdkDepends.Main.{main, printed, print_sorted, print_default, no_options, parse_options}
use ndk.NdkDepends.Main.Sorted.{Falls, main-IsOrdered}
use ndk.NdkDepends.Graph.Visit.{node_of_file, node_of, file_node-done}
use ndk.NdkDepends.Dictionary.{contains, lookup, modify, update, insert}
use ndk.NdkDepends.Graph.{
  LibNode, DependencyGraph, node_at, node_path, done, panic, out_of_fuel, Outcome, file_node,
  build_dependency_graph,
}
use ndk.NdkDepends.Sort.{get_topological_sorted_libraries, count_visitors, count_needed}
use ndk.NdkDepends.Sort.Visits.{occurrences, visits}
use ndk.NdkDepends.Sort.Acyclic.{IsOrdered}
use ndk.NdkDepends.Sort.Order.{get_topological_sorted_libraries-IsOrdered}
use ndk.NdkDepends.Sort.Cycles.{get_topological_sorted_libraries-out_of_fuel}

abbrev node_needing : List Bytes → LibNode
node_needing needed = record { type = node_path; value = []; needed_libs = needed }

abbrev node_needing_at : Bytes → List Bytes → LibNode
node_needing_at path needed = record { type = node_path; value = path; needed_libs = needed }

-- app needs liba and libb, liba needs libb.
abbrev small_graph : DependencyGraph
small_graph =
    (codes "app", node_needing (codes "liba" ∷ codes "libb" ∷ []))
    ∷ (codes "liba", node_needing (codes "libb" ∷ []))
    ∷ (codes "libb", node_needing [])
    ∷ []

-- The length of a name and its last letter tell the three apart.
abbrev small_rank : Bytes → ℕ
small_rank name = if equal name (codes "app") then 2 else if equal name (codes "liba") then 1 else 0

small_graph_size : length (count_visitors small_graph []) < 10
unfolding count_visitors count_needed modify update insert contains
small_graph_size = omega arith

get_topological_sorted_libraries-IsOrdered_example :
    (libs : List Bytes) × (get_topological_sorted_libraries 10 small_graph ≡ done libs)
    × IsOrdered small_graph libs
    × ((k : Bytes) → occurrences k libs ≡ (if contains k small_graph then 1 else 0))
unfolding contains
get_topological_sorted_libraries-IsOrdered_example =
    get_topological_sorted_libraries-IsOrdered small_rank small_graph
      (record {
        distinct = (refl, (refl, (refl, tt)));
        closed = ((refl, (refl, tt)), ((refl, tt), (tt, tt)));
        ranked = ((omega arith, (omega arith, tt)), ((omega arith, tt), (tt, tt)));
      })
      10 small_graph_size

-- liba and libb need each other.
abbrev small_cycle : DependencyGraph
small_cycle =
    (codes "liba", node_needing (codes "libb" ∷ []))
    ∷ (codes "libb", node_needing (codes "liba" ∷ []))
    ∷ []

abbrev in_turn : ℕ → Bytes
in_turn zero = codes "liba"
in_turn (suc zero) = codes "libb"
in_turn (suc (suc n)) = in_turn n

in_turn_needs :
    (n : ℕ) → 0 < occurrences (in_turn (suc n)) (node_at small_cycle (in_turn n)).needed_libs
unfolding occurrences node_at lookup
in_turn_needs zero = omega arith
in_turn_needs (suc zero) = omega arith
in_turn_needs (suc (suc n)) = in_turn_needs n

few_visitors : (k : Bytes) → visits (λ _. true) small_cycle k < 2 ^ 31 - 1
unfolding visits occurrences
few_visitors k = elim (Bool-cases (equal (codes "libb") k)) [
  | inl b ↦ elim (Bool-cases (equal (codes "liba") k)) [
    | inl a ↦ rw (b, a) (omega arith)
    | inr a ↦ rw (b, a) (omega arith)
  ]
  | inr b ↦ elim (Bool-cases (equal (codes "liba") k)) [
    | inl a ↦ rw (b, a) (omega arith)
    | inr a ↦ rw (b, a) (omega arith)
  ]
]

get_topological_sorted_libraries-out_of_fuel_example :
    get_topological_sorted_libraries 1000000 small_cycle ≡ out_of_fuel
unfolding contains
get_topological_sorted_libraries-out_of_fuel_example =
    get_topological_sorted_libraries-out_of_fuel small_cycle
      (record { lib = in_turn; known = refl; needs = in_turn_needs }) 1000000 few_visitors

path_parts_example :
    (path_dirname (codes "/usr/lib/libc.so") ≡ codes "/usr/lib")
    × (path_basename (codes "/usr/lib/libc.so") ≡ codes "libc.so")
    × (path_dirname (codes "libc.so") ≡ codes ".")
    × (path_basename (codes "libc.so") ≡ codes "libc.so")
path_parts_example =
    path_parts (codes "/usr/lib") (codes "libc.so")
      (refl, (refl, (refl, (refl, (refl, (refl, (refl, tt)))))))

get_at-encoded_example :
    (let reader : ℕ → Reader =
        λ k. record { file = (9 ∷ []) ++ (low_first k 513 ++ 7 ∷ []); big_endian = false } in
      (get_u16_at (reader 2) 1 ≡ 513)
      × (get_u32_at (reader 4) 1 ≡ 513)
      × (get_u64_at (reader 8) 1 ≡ 513))
get_at-encoded_example = get_at-encoded false 513 (9 ∷ []) (7 ∷ []) (omega arith)

library_path-join_example :
    library_path (some (codes "/lib::/opt")) ≡ some (codes "/lib" ∷ codes "." ∷ codes "/opt" ∷ [])
library_path-join_example =
    library_path-join (codes "/lib" ∷ [] ∷ codes "/opt" ∷ [])
      ((refl, (refl, (refl, (refl, tt)))), (tt, ((refl, (refl, (refl, (refl, tt)))), λ e. cc)))

-- A little-endian file of 32 bits whose three sections are none, the dynamic one with a single
-- entry that needs the string at 1, and the strings.
abbrev zeros : ℕ → Bytes
zeros zero = []
zeros (suc n) = 0 ∷ zeros n

abbrev pieces : List Bytes → Bytes
pieces [] = []
pieces (piece ∷ rest) = piece ++ pieces rest

abbrev header : ℕ → ℕ → ℕ → ℕ → Bytes
header type offset size link = pieces (
    zeros 4
    ∷ low_first 4 type
    ∷ zeros 8
    ∷ low_first 4 offset
    ∷ low_first 4 size
    ∷ low_first 4 link
    ∷ zeros 12
    ∷ [])

abbrev app_content : Bytes
app_content = pieces (
    (0x7f ∷ [])
    ∷ codes "ELF"
    ∷ (1 ∷ 1 ∷ zeros 26)
    ∷ low_first 4 52
    ∷ zeros 10
    ∷ low_first 2 40
    ∷ low_first 2 3
    ∷ zeros 2
    ∷ header 0 0 0 0
    ∷ header 6 172 8 2
    ∷ header 3 180 9 0
    ∷ low_first 4 1
    ∷ low_first 4 1
    ∷ (0 ∷ [])
    ∷ codes "libc.so"
    ∷ (0 ∷ [])
    ∷ [])

abbrev app_reader : Reader
app_reader = record { file = app_content; big_endian = false }

app_strings : get_section_offset_by_index elf32 app_reader 2 ≡ (180, 9)
unfolding get_section_offset_by_index section_iterator next_offset skip skip_loop get_off_at
    get_u16_at get_u32_at get_bytes_at get_u16_le get_u32_le
app_strings = refl

get_string_by_index-c_string_example :
    get_string_by_index elf32 app_reader 1 2 ≡ c_string (take 8 (drop 181 app_content))
get_string_by_index-c_string_example =
    get_string_by_index-c_string elf32 app_reader 1 2 180 9 (λ e. cc) app_strings (λ e. cc)
      (omega arith) (omega arith)

-- The names of two items are looked at, though the section has one.
get_needed_libs_t-names_example :
    get_needed_libs_t elf32 app_reader ≡ some (names_from elf32 app_reader 2 2 172)
unfolding get_section_offset_by_type find_section section_loop get_dynamic_string_table_index
    section_iterator get_off_at get_u16_at get_u32_at get_bytes_at get_u16_le get_u32_le
get_needed_libs_t-names_example = get_needed_libs_t-names elf32 app_reader

-- The file app, and no other.
abbrev app_system : System
app_system = record {
  fopen = λ path. if equal path (codes "app") then some app_content else none;
  strerror = λ path. [];
  stat = λ path. none;
  glob = λ pattern. [];
}

-- The file lib/libc.so, and no other.
abbrev lib_system : System
lib_system = record {
  fopen = λ path. none;
  strerror = λ path. [];
  stat = λ path. if equal path (codes "lib/libc.so") then some regular else none;
  glob = λ pattern. [];
}

find_library_path-IsFirst_example :
    IsFirst lib_system
      (codes "libc.so")
      (codes "./" ∷ [] ∷ codes "lib" ∷ [])
      (some (codes "lib/libc.so"))
unfolding find_library_path
find_library_path-IsFirst_example =
    find_library_path-IsFirst lib_system (codes "libc.so") (codes "./" ∷ [] ∷ codes "lib" ∷ [])

-- A library that is not found needs nothing.
app_needs_none : (name : Bytes) → (node_of app_system (codes "." ∷ []) name).needed_libs ≡ []
unfolding node_of find_library_path
app_needs_none name = elim (Bool-cases (is_android_system_lib name)) [ inl e ↦ rw e | inr e ↦ rw e ]

app_file :
    file_node app_system (codes "app") ≡ done (node_needing_at (codes "app") (codes "libc.so" ∷ []))
unfolding file_node open_content get_lib_name get_needed_libs get_lib_name_t get_needed_libs_t
    lib_name_loop needed_loop dynamic_iterator get_next get_string_by_index string_loop
    get_section_offset_by_index next_offset skip skip_loop get_section_offset_by_type find_section
    section_loop get_dynamic_string_table_index section_iterator get_off_at get_u16_at get_u32_at
    get_bytes_at get_u16_le get_u32_le
app_file = refl

app_needs : (node_of_file app_system (codes "app")).needed_libs ≡ codes "libc.so" ∷ []
app_needs = ap needs_of (sym (file_node-done app_system (codes "app")) ∙ app_file)
  where
    needs_of : Outcome LibNode → List Bytes
    needs_of (done node) = node.needed_libs
    needs_of panic = []
    needs_of out_of_fuel = []

app_Covers : Covers app_system (codes "." ∷ []) (codes "app") (codes "libc.so" ∷ [])
app_Covers = record {
  root_needs = rw app_needs (refl, tt);
  needs = λ name h. rw (app_needs_none name) tt;
}

build_dependency_graph-IsComplete_example :
    (deps : DependencyGraph) × (build_dependency_graph app_system (codes "." ∷ []) 10 (codes "app")
      ≡ done deps)
    × IsComplete app_system (codes "." ∷ []) (codes "app") deps
unfolding contains
build_dependency_graph-IsComplete_example =
    build_dependency_graph-IsComplete app_system (codes "." ∷ []) (codes "app")
      (codes "libc.so" ∷ []) app_Covers 10
      (rw (app_needs, app_needs_none (codes "libc.so")) (omega arith))

abbrev app_rank : Bytes → ℕ
app_rank name = if equal name (codes "app") then 1 else 0

app_Falls : Falls app_system (codes "." ∷ []) (codes "app") app_rank
unfolding path_basename path_last_dirsep
app_Falls = record {
  root_falls = rw app_needs (omega arith, tt);
  falls = λ name. rw (app_needs_none name) tt;
}

main-IsOrdered_example :
    (deps : DependencyGraph) × (libs : List Bytes) × IsComplete app_system
      (codes "." ∷ [])
      (codes "app")
      deps
    × IsOrdered deps libs
    × ((k : Bytes) → occurrences k libs ≡ (if contains k deps then 1 else 0))
    × ((enough : ℕ) × ((more : ℕ)
          → main app_system (enough + more) none (codes "app" ∷ [])
            ≡ printed (print_sorted print_default deps libs)))
unfolding parse_options path_dirname path_last_dirsep open_content
main-IsOrdered_example =
    main-IsOrdered app_system none (codes "app" ∷ []) [] (codes "libc.so" ∷ [])
      (record no_options { params = codes "app" ∷ [] }) (codes "app")
      (record { reader = app_reader; is_64bits = false }) app_rank 0 (λ fuel h. refl) refl (λ e. cc)
      refl refl app_Covers app_Falls
