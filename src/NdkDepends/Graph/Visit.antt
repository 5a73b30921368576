-- ===== src/NdkDepends/Graph/Visit.antt =====
-- What BuildDependencyGraph of ndk-depends.cc finds for one library.
use ndk.Base.{
  false, Option, none, some, List, append-nil, Bytes, ◌≡◌, refl, and-false, Bool-cases, inl, inr,
}
use ndk.NdkDepends.Dynamic.{Opened, refused, opened}
use ndk.NdkDepends.Dynamic.Items.{get_lib_name_total, get_needed_libs_total}
use ndk.NdkDepends.Search.{System, elf_file_open, is_android_system_lib, find_library_path}
use ndk.NdkDepends.Dictionary.{contains}
use ndk.NdkDepends.Graph.{
  LibNode, DependencyGraph, done, opened_node, set_node, node_error, node_path, missing_node,
  file_node, with_node, update_dependencies, visit_path, visit_library,
}

opened_node_total :
    (libpath : Bytes) (o : Opened) → (node : LibNode) × (opened_node libpath o ≡ done node)
opened_node_total libpath (refused error) = (set_node node_error error, refl)
opened_node_total libpath (opened libfile) =
    let (name, e) = get_lib_name_total libfile in
    let (names, e') = get_needed_libs_total libfile in
    (record { type = node_path; value = libpath; needed_libs = names }, rw (e, e'))

-- The node of a file.
pub node_of_file : System → Bytes → LibNode
node_of_file system libpath = (opened_node_total libpath (elf_file_open system libpath)).0

pub file_node-done :
    (system : System) (libpath : Bytes)
    → file_node system libpath ≡ done (node_of_file system libpath)
unfolding file_node node_of_file
file_node-done system libpath = (opened_node_total libpath (elf_file_open system libpath)).1

abbrev found_node : System → Bytes → Option Bytes → LibNode
found_node system libname none = missing_node libname
found_node system libname (some libpath) = node_of_file system libpath

-- The node of a library's name.
unfoldable pub node_of : System → List Bytes → Bytes → LibNode
node_of system lib_search_path libname =
    found_node system libname (find_library_path system libname lib_search_path)

pub update_dependencies-new :
    (system : System) (libname libpath : Bytes) (deps : DependencyGraph) (queue : List Bytes)
    → contains libname deps ≡ false
    → update_dependencies system libname libpath deps queue
      ≡ with_node libname deps queue (done (node_of_file system libpath))
unfolding update_dependencies
update_dependencies-new system libname libpath deps queue new =
    rw (new, and-false, file_node-done system libpath)

visit_path-new :
    (system : System) (libname : Bytes) (deps : DependencyGraph) (queue : List Bytes)
    (found : Option Bytes)
    → contains libname deps ≡ false
    → visit_path system libname deps queue found
      ≡ with_node libname deps queue (done (found_node system libname found))
visit_path-new system libname deps queue (some libpath) new =
    update_dependencies-new system libname libpath deps queue new
visit_path-new system libname deps queue none new =
    elim (Bool-cases (is_android_system_lib libname)) [
      | inl e ↦ rw (e, append-nil queue)
      | inr e ↦ rw (e, append-nil queue)
    ]

-- A round for a name that is not in the graph never panics.
pub visit_library-new :
    (system : System) (lib_search_path : List Bytes) (libname : Bytes) (deps : DependencyGraph)
    (queue : List Bytes)
    → contains libname deps ≡ false
    → visit_library system lib_search_path libname deps queue
      ≡ with_node libname deps queue (done (node_of system lib_search_path libname))
unfolding visit_library node_of
visit_library-new system lib_search_path libname deps queue new =
    visit_path-new system libname deps queue (find_library_path system libname lib_search_path) new
