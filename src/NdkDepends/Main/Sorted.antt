-- ===== src/NdkDepends/Main/Sorted.antt =====
-- `main` of ndk-depends.cc from the file to the list: the graph that it builds is one that it can
-- sort.
use ndk.Base.{
  ℕ, zero, suc, ◌+◌, ◌≤◌, ◌<◌, false, Option, List, [], ◌∷◌, ◌++◌, Bytes, All, Bool-cases, inl, inr,
  ◌≡◌, ◌≢◌, ◌⊎◌, refl, if◌then◌else◌, arith, length,
}
use ndk.Base.CString.{ℤ, pos}
use ndk.NdkDepends.Paths.{path_basename, path_dirname}
use ndk.NdkDepends.Dynamic.{opened, ElfFile}
use ndk.NdkDepends.Search.{System, elf_file_open, add_host_library_paths}
use ndk.NdkDepends.Dictionary.{contains}
use ndk.NdkDepends.Graph.{
  DependencyGraph, Building, Outcome, done, panic, out_of_fuel, following, visit_library,
  build_loop, build_dependency_graph,
}
use ndk.NdkDepends.Graph.Visit.{node_of_file, node_of}
use ndk.NdkDepends.Graph.Complete.{build_dependency_graph-IsComplete}
use ndk.NdkDepends.Graph.Promise.{Covers, IsComplete, places}
use ndk.NdkDepends.Sort.{
  VisitorMap, int_max, is_int_max, min_loop, remove_library, sort_loop, count_visitors,
  get_topological_sorted_libraries,
}
use ndk.NdkDepends.Sort.Visits.{occurrences, AllNeeded}
use ndk.NdkDepends.Sort.Acyclic.{IsAcyclic, IsOrdered}
use ndk.NdkDepends.Sort.Order.{get_topological_sorted_libraries-IsOrdered}
use ndk.NdkDepends.Main.{
  main, print_default, print_direct, print_paths, print_java, print_dot_file, printed, no_options,
  parse_options, Options, print_file, PrintFormat, print_sorted,
}

following-more :
    (o : Outcome Building) (few many : DependencyGraph → List Bytes → Outcome DependencyGraph)
    {r : DependencyGraph}
    → ((deps : DependencyGraph) (queue : List Bytes)
        → few deps queue ≡ done r
        → many deps queue ≡ done r)
    → following o few ≡ done r
    → following o many ≡ done r
following-more (done b) few many step e = step b.deps b.queue e
following-more panic few many step e = cc
following-more out_of_fuel few many step e = cc

-- More rounds do not change the graph.
build_loop_more :
    (system : System) (paths : List Bytes) (f more : ℕ) (deps : DependencyGraph)
    (queue : List Bytes) {r : DependencyGraph}
    → build_loop system paths f deps queue ≡ done r
    → f ≤ more
    → build_loop system paths more deps queue ≡ done r
unfolding build_loop
build_loop_more system paths zero more deps queue e h = cc
build_loop_more system paths (suc f) zero deps queue e h = absurd (omega arith)
build_loop_more system paths (suc f) (suc more) deps [] e h = e
build_loop_more system paths (suc f) (suc more) deps (libname ∷ queue) e h =
    elim (Bool-cases (contains libname deps)) [
      | inl old ↦
          rw old (build_loop_more system paths f more deps queue (rw old at e) (omega arith))
      | inr new ↦ rw new (
          following-more (visit_library system paths libname deps queue) (build_loop system paths f)
            (build_loop system paths more)
            (λ deps' queue' e'. build_loop_more system paths f more deps' queue' e' (omega arith))
            (rw new at e))
    ]

build_dependency_graph_more :
    (system : System) (paths : List Bytes) (f more : ℕ) (root_libpath : Bytes) {r : DependencyGraph}
    → build_dependency_graph system paths f root_libpath ≡ done r
    → f ≤ more
    → build_dependency_graph system paths more root_libpath ≡ done r
unfolding build_dependency_graph
build_dependency_graph_more system paths f more root_libpath e h =
    following-more _ (build_loop system paths f) (build_loop system paths more)
      (λ deps queue e'. build_loop_more system paths f more deps queue e' h) e

sort_loop_more :
    (f more : ℕ) (deps : DependencyGraph) (visitors : VisitorMap) (result : List Bytes)
    {libs : List Bytes}
    → sort_loop f deps visitors result ≡ done libs
    → f ≤ more
    → sort_loop more deps visitors result ≡ done libs
unfolding sort_loop
sort_loop_more zero more deps visitors result e h = cc
sort_loop_more (suc f) zero deps visitors result e h = absurd (omega arith)
sort_loop_more (suc f) (suc more) deps [] result e h = e
sort_loop_more (suc f) (suc more) deps (item ∷ visitors) result e h =
    let best : Bytes × ℤ = min_loop (item ∷ visitors) ([], pos int_max) in
    elim (Bool-cases (is_int_max best.1)) [
      | inl most ↦ cc (rw most at e)
      | inr less ↦ rw less (
          sort_loop_more f more deps (remove_library deps best.0 (item ∷ visitors))
            (result ++ best.0 ∷ []) (rw less at e) (omega arith))
    ]

get_topological_sorted_libraries_more :
    (f more : ℕ) (deps : DependencyGraph) {libs : List Bytes}
    → get_topological_sorted_libraries f deps ≡ done libs
    → f ≤ more
    → get_topological_sorted_libraries more deps ≡ done libs
unfolding get_topological_sorted_libraries
get_topological_sorted_libraries_more f more deps e h =
    sort_loop_more f more deps (count_visitors deps []) [] e h

-- No circle: over others no file needs its own library. A rank falls along each need.
pub record Falls (system : System) (paths : List Bytes) (root_libpath : Bytes) (rank : Bytes → ℕ)
    : Type 0 where
  pub root_falls :
      All
        (λ d. rank d < rank (path_basename root_libpath))
        (node_of_file system root_libpath).needed_libs
  pub falls : (name : Bytes) → All (λ d. rank d < rank name) (node_of system paths name).needed_libs

module _ (system : System) (paths : List Bytes) (root_libpath : Bytes) (rank : Bytes → ℕ)
    (f : Falls system paths root_libpath rank) where
  ranked_items :
      (deps : DependencyGraph)
      → All
          (λ item.
            ((item.0 ≡ path_basename root_libpath) × (item.1 ≡ node_of_file system root_libpath))
            ⊎ (item.1 ≡ node_of system paths item.0))
          deps
      → AllNeeded (λ k d. rank d < rank k) deps
  ranked_items [] all = tt
  ranked_items ((k, node) ∷ deps) all = (
    elim (all.0) [ inl (e, e') ↦ rw (e, e') (f.root_falls) | inr e ↦ rw e (f.falls k) ],
    ranked_items deps all.1,
  )

  IsComplete-IsAcyclic :
      (deps : DependencyGraph) → IsComplete system paths root_libpath deps → IsAcyclic rank deps
  IsComplete-IsAcyclic deps c = record {
    distinct = c.distinct;
    closed = c.closed;
    ranked = ranked_items deps c.origin;
  }

print_file-sorted :
    (system : System) (fuel : ℕ) (format : PrintFormat) (path : Bytes) (paths : List Bytes)
    (libfile : ElfFile) (deps : DependencyGraph) (libs : List Bytes)
    → format ≢ print_direct
    → build_dependency_graph system paths fuel path ≡ done deps
    → get_topological_sorted_libraries fuel deps ≡ done libs
    → print_file system fuel format path paths (opened libfile)
      ≡ printed (print_sorted format deps libs)
print_file-sorted system fuel print_direct path paths libfile deps libs other e e' =
    absurd (other refl)
print_file-sorted system fuel print_default path paths libfile deps libs other e e' = rw (e, e')
print_file-sorted system fuel print_paths path paths libfile deps libs other e e' = rw (e, e')
print_file-sorted system fuel print_java path paths libfile deps libs other e e' = rw (e, e')
print_file-sorted system fuel print_dot_file path paths libfile deps libs other e e' = rw (e, e')

-- Let the options be accepted, --help and --print-direct not be among them, and the first parameter
-- be a file that opens as an ELF file. Let a finite set of names hold all names that are needed,
-- with no circle among the files. Then there is a graph that is complete for the file's directory
-- and the options' search path, and a list of its libraries, each exactly once and before all that
-- it needs; and with enough fuel the program prints that list, in the format of the options.
pub main-IsOrdered :
    (system : System) (env : Option Bytes) (argv more_params names : List Bytes) (o : Options)
    (path : Bytes) (libfile : ElfFile) (rank : Bytes → ℕ) (start : ℕ)
    → ((fuel : ℕ)
        → start ≤ fuel
        → parse_options (add_host_library_paths system fuel env) argv no_options ≡ done o)
    → o.do_help ≡ false
    → o.print_format ≢ print_direct
    → o.params ≡ path ∷ more_params
    → elf_file_open system path ≡ opened libfile
    → Covers system (path_dirname path ∷ o.lib_search_path) path names
    → Falls system (path_dirname path ∷ o.lib_search_path) path rank
    → (deps : DependencyGraph) × (libs : List Bytes) × IsComplete system
        (path_dirname path ∷ o.lib_search_path)
        path
        deps
      × IsOrdered deps libs
      × ((k : Bytes) → occurrences k libs ≡ (if contains k deps then 1 else 0))
      × ((enough : ℕ) × ((more : ℕ)
            → main system (enough + more) env argv
              ≡ printed (print_sorted o.print_format deps libs)))
unfolding main
main-IsOrdered system env argv more_params names o path libfile rank start options help direct
      params open_file covers f =
    let paths = path_dirname path ∷ o.lib_search_path in
    let built = suc (
      length (node_of_file system path).needed_libs
      + places (λ name. (node_of system paths name).needed_libs) [] names) in
    let (deps, e, complete) =
      build_dependency_graph-IsComplete system paths path names covers built (omega arith) in
    let acyclic = IsComplete-IsAcyclic system paths path rank f deps complete in
    let sorting = suc (length (count_visitors deps [])) in
    let (libs, e', ordered, once) =
      get_topological_sorted_libraries-IsOrdered rank deps acyclic sorting (omega arith) in
    (
      deps,
      libs,
      complete,
      ordered,
      once,
      (
        start + built + sorting,
        λ more.
            let fuel = start + built + sorting + more in
            rw (options fuel (omega arith), help, params, open_file)
              (print_file-sorted system fuel o.print_format path paths libfile deps libs direct
                (build_dependency_graph_more system paths built fuel path e (omega arith))
                (get_topological_sorted_libraries_more sorting fuel deps e' (omega arith))),
      ),
    )
