-- ===== src/NdkDepends/Graph.antt =====
-- UpdateDependencies and BuildDependencyGraph of ndk-depends.cc.
pub mod Visit
pub mod Promise
pub mod Complete
use ndk.Base.{
  ℕ, zero, suc, ◌&&◌, Bool, true, false, not, Option, none, some, List, [], ◌∷◌, ◌++◌, Bytes, codes,
  length, if◌then◌else◌,
}
use ndk.NdkDepends.Paths.{path_basename}
use ndk.NdkDepends.Dynamic.{Opened, refused, opened, ElfFile, get_lib_name, get_needed_libs}
use ndk.NdkDepends.Search.{System, elf_file_open, is_android_system_lib, find_library_path}
use ndk.NdkDepends.Dictionary.{contains, lookup, assign}

-- `LibNode::Type`
pub data NodeType : Type 0 where
  node_none node_path node_error node_system : NodeType

pub record LibNode : Type 0 where
  pub type : NodeType
  pub value : Bytes
  pub needed_libs : List Bytes

abbrev pub DependencyGraph : Type 0
DependencyGraph = List (Bytes × LibNode)

-- `LibNode()`, and `LibNode()` behind `Set(type, value)`.
abbrev pub empty_node : LibNode
empty_node = record { type = node_none; value = []; needed_libs = [] }

abbrev pub set_node : NodeType → Bytes → LibNode
set_node type value = record { type = type; value = value; needed_libs = [] }

abbrev pub or_empty : Option LibNode → LibNode
or_empty none = empty_node
or_empty (some node) = node

-- `deps[libname]` where it is only read: an item that `operator[]` adds is an empty one.
unfoldable pub node_at : DependencyGraph → Bytes → LibNode
node_at deps libname = or_empty (lookup libname deps)

-- How a function ends: it returns, calls `panic`, or has used its fuel.
pub data Outcome {ℓ} (A : Type ℓ) : Type ℓ where
  done : A → Outcome A
  panic : Outcome A
  out_of_fuel : Outcome A

-- The node that `UpdateDependencies` makes. The library's name, that `GetLibName` reads, is only
-- compared for a warning: the `soname` below the test is another variable.
abbrev pub path_node : Bytes → Option Bytes → Option (List Bytes) → Outcome LibNode
path_node libpath none needed = out_of_fuel
path_node libpath (some soname) none = out_of_fuel
path_node libpath (some soname) (some needed) =
    done (record { type = node_path; value = libpath; needed_libs = needed })

abbrev pub opened_node : Bytes → Opened → Outcome LibNode
opened_node libpath (refused error) = done (set_node node_error error)
opened_node libpath (opened libfile) =
    path_node libpath (get_lib_name libfile) (get_needed_libs libfile)

unfoldable pub file_node : System → Bytes → Outcome LibNode
file_node system libpath = opened_node libpath (elf_file_open system libpath)

-- `deps` and `queue`.
pub record Building : Type 0 where
  pub deps : DependencyGraph
  pub queue : List Bytes

abbrev pub with_node : Bytes → DependencyGraph → List Bytes → Outcome LibNode → Outcome Building
with_node libname deps queue (done node) =
    done (record { deps = assign libname node deps; queue = queue ++ node.needed_libs })
with_node libname deps queue panic = panic
with_node libname deps queue out_of_fuel = out_of_fuel

abbrev pub is_empty : Bytes → Bool
is_empty [] = true
is_empty (c ∷ s) = false

unfoldable pub update_dependencies :
    System → Bytes → Bytes → DependencyGraph → List Bytes → Outcome Building
update_dependencies system libname libpath deps queue =
    if not (is_empty libname) && contains libname deps
    then panic
    else with_node libname deps queue (file_node system libpath)

abbrev pub could_not_find : Bytes
could_not_find = codes "Could not find library"

-- The node of a library that is not in the search path.
abbrev pub missing_node : Bytes → LibNode
missing_node libname =
    if is_android_system_lib libname
    then set_node node_system libname
    else set_node node_error could_not_find

abbrev pub visit_path :
    System → Bytes → DependencyGraph → List Bytes → Option Bytes → Outcome Building
visit_path system libname deps queue (some libpath) =
    update_dependencies system libname libpath deps queue
visit_path system libname deps queue none =
    done (record { deps = assign libname (missing_node libname) deps; queue = queue })

-- A round of the `while` loop for a name that is not in the graph.
unfoldable pub visit_library :
    System → List Bytes → Bytes → DependencyGraph → List Bytes → Outcome Building
visit_library system lib_search_path libname deps queue =
    visit_path system libname deps queue (find_library_path system libname lib_search_path)

-- What follows a call that returns.
abbrev pub following :
    Outcome Building
    → (DependencyGraph → List Bytes → Outcome DependencyGraph)
    → Outcome DependencyGraph
following (done b) next = next b.deps b.queue
following panic next = panic
following out_of_fuel next = out_of_fuel

-- The `while` loop, on fuel.
unfoldable pub build_loop :
    System → List Bytes → ℕ → DependencyGraph → List Bytes → Outcome DependencyGraph
build_loop system lib_search_path zero deps queue = out_of_fuel
build_loop system lib_search_path (suc f) deps [] = done deps
build_loop system lib_search_path (suc f) deps (libname ∷ queue) =
    let skipped = build_loop system lib_search_path f deps queue in
    let visited =
      following (visit_library system lib_search_path libname deps queue)
        (build_loop system lib_search_path f) in
    if contains libname deps then skipped else visited

unfoldable pub build_dependency_graph : System → List Bytes → ℕ → Bytes → Outcome DependencyGraph
build_dependency_graph system lib_search_path fuel root_libpath =
    following (update_dependencies system (path_basename root_libpath) root_libpath [] [])
      (build_loop system lib_search_path fuel)
