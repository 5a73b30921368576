-- ===== src/NdkDepends/Main.antt =====
-- `main` of ndk-depends.cc: the options, and what is printed for each format. An item of a list of
-- lines is what one call prints, without its newline; the messages of --verbose are not in it.
pub mod Sorted
use ndk.Base.{
  ℕ, zero, suc, ◌+◌, ◌-◌, ◌&&◌, ◌||◌, Bool, true, false, not, Option, none, some, List, [], ◌∷◌,
  ◌++◌, Bytes, codes, length, take, drop, equal, ◌==◌, if◌then◌else◌,
}
use ndk.Base.CString.{starts_with}
use ndk.NdkDepends.Paths.{path_dirname}
use ndk.NdkDepends.Dynamic.{Opened, refused, opened, get_needed_libs}
use ndk.NdkDepends.Search.{
  System, elf_file_open, is_android_system_lib, is_android_ndk_compatible_lib,
  add_host_library_paths,
}
use ndk.NdkDepends.Graph.{
  NodeType, node_none, node_path, node_error, node_system, LibNode, DependencyGraph, node_at,
  Outcome, done, panic, out_of_fuel, build_dependency_graph,
}
use ndk.NdkDepends.Sort.{get_topological_sorted_libraries}

pub data PrintFormat : Type 0 where
  print_default print_direct print_paths print_java print_dot_file : PrintFormat

-- The variables of `main` that the options set.
pub record Options : Type 0 where
  pub do_help : Bool
  pub print_format : PrintFormat
  pub lib_search_path : List Bytes
  pub params : List Bytes
  pub verbose : ℕ

abbrev pub no_options : Options
no_options = record {
  do_help = false;
  print_format = print_default;
  lib_search_path = [];
  params = [];
  verbose = 0;
}

-- Options that stand alone; `host` is what AddHostLibraryPaths adds.
abbrev pub plain_option : Option (List Bytes) → Bytes → Options → Outcome Options
plain_option host arg o =
    if equal arg (codes "--help") || equal arg (codes "-h") || equal arg (codes "-?")
    then done (record o { do_help = true })
    else if equal arg (codes "--print-direct")
    then done (record o { print_format = print_direct })
    else if starts_with (codes "-L") arg
    then done (record o { lib_search_path = o.lib_search_path ++ drop 2 arg ∷ [] })
    else if equal arg (codes "--host-libs")
    then elim host [
      | none ↦ out_of_fuel
      | some paths ↦ done (record o { lib_search_path = o.lib_search_path ++ paths })
    ]
    else if equal arg (codes "--print-java")
    then done (record o { print_format = print_java })
    else if equal arg (codes "--print-paths")
    then done (record o { print_format = print_paths })
    else if equal arg (codes "--print-dot")
    then done (record o { print_format = print_dot_file })
    else if equal arg (codes "--verbose")
    then done (record o { verbose = suc o.verbose })
    else panic

abbrev pub first_is_dash : Bytes → Bool
first_is_dash [] = false
first_is_dash (c ∷ arg) = c == b'-'

abbrev pub one_argument : Option (List Bytes) → Bytes → Options → Outcome Options
one_argument host arg o =
    if first_is_dash arg
    then plain_option host arg o
    else done (record o { params = o.params ++ arg ∷ [] })

abbrev pub chain : Outcome Options → (Options → Outcome Options) → Outcome Options
chain (done o) next = next o
chain panic next = panic
chain out_of_fuel next = out_of_fuel

-- The loop over `argv` behind the program's name.
unfoldable pub parse_options : Option (List Bytes) → List Bytes → Options → Outcome Options
parse_options host [] o = done o
parse_options host (arg ∷ []) o = if equal arg (codes "-L") then panic else one_argument host arg o
parse_options host (arg ∷ value ∷ argv) o =
    let searched =
      parse_options host argv (record o { lib_search_path = o.lib_search_path ++ value ∷ [] }) in
    let rest = chain (one_argument host arg o) (parse_options host (value ∷ argv)) in
    if equal arg (codes "-L") then searched else rest

-- The loop of --print-java, on the reversed list.
unfoldable pub java_lines : List Bytes → List Bytes
java_lines [] = []
java_lines (lib ∷ libs) =
    if is_android_system_lib lib || not (is_android_ndk_compatible_lib lib)
    then java_lines libs
    else (codes "System.loadLibrary(" ++ (take (length lib - 6) (drop 3 lib) ++ codes ");"))
      ∷ java_lines libs

unfoldable pub reversed : List Bytes → List Bytes
reversed [] = []
reversed (lib ∷ libs) = reversed libs ++ lib ∷ []

abbrev pub edge_lines : Bytes → List Bytes → List Bytes
edge_lines libname [] = []
edge_lines libname (dep ∷ libdeps) =
    (codes "  \"" ++ (libname ++ (codes "\" -> \"" ++ (dep ++ codes "\""))))
    ∷ edge_lines libname libdeps

-- The loops of --print-dot.
unfoldable pub dot_lines : DependencyGraph → List Bytes → List Bytes
dot_lines deps [] = []
dot_lines deps (libname ∷ libs) =
    edge_lines libname (node_at deps libname).needed_libs ++ dot_lines deps libs

abbrev pub arrow_of : NodeType → Bytes
arrow_of node_path = codes " -> "
arrow_of node_system = codes " -> $ /system/lib/"
arrow_of node_none = codes " -> !! "
arrow_of node_error = codes " -> !! "

-- The loop of --print-paths.
unfoldable pub path_lines : DependencyGraph → List Bytes → List Bytes
path_lines deps [] = []
path_lines deps (lib ∷ libs) =
    (lib ++ (arrow_of (node_at deps lib).type ++ (node_at deps lib).value)) ∷ path_lines deps libs

abbrev pub type_name : NodeType → Bytes
type_name node_none = codes "NONE??"
type_name node_path = codes "PATH"
type_name node_error = codes "ERROR"
type_name node_system = codes "SYSTEM"

abbrev pub indented : List Bytes → List Bytes
indented [] = []
indented (name ∷ names) = (codes "    " ++ name) ∷ indented names

abbrev pub needed_lines : LibNode → List Bytes
needed_lines node = elim node.type [ node_path ↦ indented node.needed_libs | _ ↦ [] ]

-- The loop of `DumpDependencyGraph`.
unfoldable pub graph_lines : DependencyGraph → List Bytes
graph_lines [] = []
graph_lines ((libname, node) ∷ deps) =
    (codes "[" ++ (libname ++ (codes "] " ++ (type_name node.type ++ (codes " " ++ node.value)))))
    ∷ (needed_lines node ++ graph_lines deps)

unfoldable pub dump_dependency_graph : DependencyGraph → List Bytes
dump_dependency_graph deps = codes "Dependency graph:" ∷ graph_lines deps

unfoldable pub print_sorted : PrintFormat → DependencyGraph → List Bytes → List Bytes
print_sorted print_java deps libs = java_lines (reversed libs)
print_sorted print_dot_file deps libs = codes "digraph {" ∷ (dot_lines deps libs ++ codes "}" ∷ [])
print_sorted print_paths deps libs = path_lines deps libs
print_sorted print_default deps libs = libs
print_sorted print_direct deps libs = libs

-- How the program ends: the usage message and 0, a message and 1, lines and 0, or not within the
-- fuel.
pub data Exit : Type 0 where
  usage : Exit
  failed : Exit
  printed : List Bytes → Exit
  running : Exit

abbrev pub print_outcome : PrintFormat → DependencyGraph → Outcome (List Bytes) → Exit
print_outcome print_format deps (done libs) = printed (print_sorted print_format deps libs)
print_outcome print_format deps panic = failed
print_outcome print_format deps out_of_fuel = running

abbrev pub sort_outcome : ℕ → PrintFormat → Outcome DependencyGraph → Exit
sort_outcome fuel print_format (done deps) =
    print_outcome print_format deps (get_topological_sorted_libraries fuel deps)
sort_outcome fuel print_format panic = failed
sort_outcome fuel print_format out_of_fuel = running

abbrev pub direct_lines : Option (List Bytes) → Exit
direct_lines none = running
direct_lines (some needed_libs) = printed needed_libs

-- Whether the file can be opened is seen before anything is read.
abbrev pub print_file : System → ℕ → PrintFormat → Bytes → List Bytes → Opened → Exit
print_file system fuel print_format path lib_search_path (refused error) = failed
print_file system fuel print_format path lib_search_path (opened libfile) = elim print_format [
  | print_direct ↦ direct_lines (get_needed_libs libfile)
  | other ↦ sort_outcome fuel other (build_dependency_graph system lib_search_path fuel path)
]

abbrev pub run_params : System → ℕ → Options → List Bytes → Exit
run_params system fuel o [] = failed
run_params system fuel o (path ∷ params) =
    print_file system fuel o.print_format path (path_dirname path ∷ o.lib_search_path)
      (elf_file_open system path)

abbrev pub run_options : System → ℕ → Outcome Options → Exit
run_options system fuel (done o) = if o.do_help then usage else run_params system fuel o o.params
run_options system fuel panic = failed
run_options system fuel out_of_fuel = running

-- `main` on the arguments behind the program's name and the value of LD_LIBRARY_PATH. The loops of
-- the graph and of the sort, and the depth of includes, take `fuel`.
unfoldable pub main : System → ℕ → Option Bytes → List Bytes → Exit
main system fuel env argv =
    run_options system fuel (parse_options (add_host_library_paths system fuel env) argv no_options)
