-- ===== src/NdkDepends/Graph/Complete.antt =====
-- The graph that BuildDependencyGraph of ndk-depends.cc returns.
use ndk.Base.{
  ℕ, zero, suc, ◌+◌, ◌<◌, Bool, true, false, ◌||◌, List, [], ◌∷◌, ◌++◌, Bytes, All, All-map, equal,
  equal_refl, Bool-cases, or-true, or-false, inl, inr, ◌≡◌, ◌⊎◌, refl, sym, ◌∙◌, arith, length,
  length-append,
}
use ndk.NdkDepends.Paths.{path_basename}
use ndk.NdkDepends.Search.{System, listed}
use ndk.NdkDepends.Dictionary.{contains, insert, assign}
use ndk.NdkDepends.Dictionary.Laws.{equal_cases, contains-insert, All-insert}
use ndk.NdkDepends.Graph.{LibNode, DependencyGraph, done, build_loop, build_dependency_graph}
use ndk.NdkDepends.Graph.Visit.{node_of_file, node_of, update_dependencies-new, visit_library-new}
use ndk.NdkDepends.Sort.Visits.{AllNeeded, AllNeeded-map, Distinct}
use ndk.NdkDepends.Graph.Promise.{
  Distinct-insert, AllNeeded-insert, listed-append, All-listed, All-append, IsComplete, Covers,
  places, places-le, places-drop,
}

module _ (system : System) (lib_search_path : List Bytes) (root_libpath : Bytes)
    (names : List Bytes) (covers : Covers system lib_search_path root_libpath names) where
  abbrev needed_of : Bytes → List Bytes
  needed_of name = (node_of system lib_search_path name).needed_libs

  abbrev ComesFrom : Bytes × LibNode → Type 0
  ComesFrom item =
      ((item.0 ≡ path_basename root_libpath) × (item.1 ≡ node_of_file system root_libpath))
      ⊎ (item.1 ≡ node_of system lib_search_path item.0)

  -- Between two rounds what is needed is in the graph or in the queue.
  record Growing (deps : DependencyGraph) (queue : List Bytes) : Type 0 where
    rooted : contains (path_basename root_libpath) deps ≡ true
    distinct : Distinct deps
    closing : AllNeeded (λ _ d. (contains d deps || listed d queue) ≡ true) deps
    origin : All ComesFrom deps
    inside : All (λ d. listed d names ≡ true) queue

  Growing-skip :
      (deps : DependencyGraph) (libname : Bytes) (queue : List Bytes)
      → contains libname deps ≡ true
      → Growing deps (libname ∷ queue)
      → Growing deps queue
  Growing-skip deps libname queue old g = record {
    rooted = g.rooted;
    distinct = g.distinct;
    closing = AllNeeded-map _ _ (λ k d h. still d h) deps g.closing;
    origin = g.origin;
    inside = g.inside.1;
  }
    where
      still :
          (d : Bytes)
          → (contains d deps || (equal d libname || listed d queue)) ≡ true
          → (contains d deps || listed d queue) ≡ true
      still d h = elim (equal_cases d libname) [
        | inl (same, e) ↦ rw (e, old)
        | inr other ↦ rw other at h
      ]

  Growing-visit :
      (deps : DependencyGraph) (libname : Bytes) (queue : List Bytes)
      → contains libname deps ≡ false
      → Growing deps (libname ∷ queue)
      → Growing
          (insert libname (node_of system lib_search_path libname) deps)
          (queue ++ needed_of libname)
  Growing-visit deps libname queue new g =
      let node = node_of system lib_search_path libname in
      let grown = λ (k : Bytes). contains-insert k libname node deps in
      let Closing = λ (d : Bytes).
        (contains d (insert libname node deps) || listed d (queue ++ node.needed_libs)) ≡ true in
      record {
        rooted = grown (path_basename root_libpath) ∙ rw (g.rooted, or-true);
        distinct = Distinct-insert libname node deps new g.distinct;
        closing =
            AllNeeded-insert (λ _ d. Closing d) libname node deps
              (All-map (λ d. listed d node.needed_libs ≡ true) Closing
                (λ d h. rw (grown d, listed-append d queue node.needed_libs, h, or-true, or-true))
                node.needed_libs (All-listed node.needed_libs))
              (AllNeeded-map (λ _ d. (contains d deps || listed d (libname ∷ queue)) ≡ true)
                (λ _ d. Closing d)
                (λ k d h.
                  rw (grown d, listed-append d queue node.needed_libs)
                    (still d (listed d node.needed_libs) h))
                deps g.closing);
        origin = All-insert ComesFrom libname node deps (inr refl) g.origin;
        inside = All-append _ queue node.needed_libs g.inside.1 (covers.needs libname g.inside.0);
      }
    where
      still :
          (d : Bytes) (more : Bool)
          → (contains d deps || (equal d libname || listed d queue)) ≡ true
          → ((equal libname d || contains d deps) || (listed d queue || more)) ≡ true
      still d more h = elim (equal_cases d libname) [
        | inl (same, e) ↦ rw (e, equal_refl libname)
        | inr other ↦ let h' = rw other at h in ground arith
      ]

  build_loop_lem :
      (f : ℕ) (deps : DependencyGraph) (queue : List Bytes)
      → length queue + places needed_of deps names < f
      → Growing deps queue
      → (result : DependencyGraph) × (build_loop system lib_search_path f deps queue ≡ done result)
        × IsComplete system lib_search_path root_libpath result
  unfolding build_loop assign
  build_loop_lem zero deps queue h g = elim h [ ]
  build_loop_lem (suc f) deps [] h g = (
    deps,
    refl,
    record {
      rooted = g.rooted;
      distinct = g.distinct;
      closed = AllNeeded-map _ _ (λ k d h. sym (or-false _) ∙ h) deps g.closing;
      origin = g.origin;
    },
  )
  build_loop_lem (suc f) deps (libname ∷ queue) h g = elim (Bool-cases (contains libname deps)) [
    | inl old ↦
        let (result, e, complete) =
          build_loop_lem f deps queue (omega arith) (Growing-skip deps libname queue old g) in
        (result, rw (old, e), complete)
    | inr new ↦
        let node = node_of system lib_search_path libname in
        let drop =
          places-drop needed_of libname deps (insert libname node deps)
            (λ k. contains-insert k libname node deps) names new (g.inside.0) in
        let (result, e, complete) =
          build_loop_lem f (insert libname node deps) (queue ++ needed_of libname)
            (omega (arith, drop, length-append queue (needed_of libname)))
            (Growing-visit deps libname queue new g) in
        (
          result,
          rw (new, visit_library-new system lib_search_path libname deps queue new, new, e),
          complete,
        )
  ]

  abbrev first_deps : DependencyGraph
  first_deps = (path_basename root_libpath, node_of_file system root_libpath) ∷ []

  Growing-start : Growing first_deps (node_of_file system root_libpath).needed_libs
  unfolding contains
  Growing-start =
      let needed = (node_of_file system root_libpath).needed_libs in
      record {
        rooted = rw (equal_refl (path_basename root_libpath));
        distinct = (refl, tt);
        closing = (All-map _ _ (λ d h. rw (h, or-true)) needed (All-listed needed), tt);
        origin = (inl (refl, refl), tt);
        inside = covers.root_needs;
      }

  -- Let a finite set of names hold all that the root's file needs, and all that any of the names
  -- needs. Then a round for each place in the lists of what the root and the names need, and one
  -- more, is enough: the function returns, without a panic, a graph that is complete.
  pub build_dependency_graph-IsComplete :
      (fuel : ℕ)
      → length (node_of_file system root_libpath).needed_libs + places needed_of [] names < fuel
      → (deps : DependencyGraph) × (build_dependency_graph system lib_search_path fuel root_libpath
          ≡ done deps)
        × IsComplete system lib_search_path root_libpath deps
  unfolding build_dependency_graph assign insert contains
  build_dependency_graph-IsComplete fuel enough =
      let root = path_basename root_libpath in
      let needed = (node_of_file system root_libpath).needed_libs in
      let (deps, e, complete) =
        build_loop_lem fuel first_deps needed
          (omega (arith, places-le needed_of root [] first_deps (λ k. refl) names)) Growing-start in
      (deps, rw (update_dependencies-new system root root_libpath [] [] refl, e), complete)
