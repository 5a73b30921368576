-- ===== src/NdkDepends/Sort.antt =====
-- GetTopologicalSortedLibraries of ndk-depends.cc. An `int` that counts visitors is an integer.
pub mod Visits
pub mod Counts
pub mod Minimum
pub mod Acyclic
pub mod Order
pub mod Cycles
use ndk.Base.{
  ℕ, zero, suc, Bool, true, false, List, [], ◌∷◌, ◌++◌, Bytes, leb, ltb, if◌then◌else◌, ◌-◌, ◌^◌,
  Option, none, some, ◌==◌, ◌+◌,
}
use ndk.Base.CString.{ℤ, pos, negsuc}
use ndk.NdkDepends.Dictionary.{modify, erase}
use ndk.NdkDepends.Graph.{LibNode, DependencyGraph, node_at, Outcome, done, panic, out_of_fuel}

abbrev pub plus_one : ℤ → ℤ
plus_one (pos n) = pos (suc n)
plus_one (negsuc zero) = pos 0
plus_one (negsuc (suc n)) = negsuc n

abbrev pub minus_one : ℤ → ℤ
minus_one (pos zero) = negsuc 0
minus_one (pos (suc n)) = pos n
minus_one (negsuc n) = negsuc (suc n)

abbrev pub le_int : ℤ → ℤ → Bool
le_int (pos a) (pos b) = leb a b
le_int (pos a) (negsuc b) = false
le_int (negsuc a) (pos b) = true
le_int (negsuc a) (negsuc b) = leb b a

abbrev pub VisitorMap : Type 0
VisitorMap = List (Bytes × ℤ)

-- `visitors[libname] += 1`, or 1 for a new name.
unfoldable pub count_needed : List Bytes → VisitorMap → VisitorMap
count_needed [] visitors = visitors
count_needed (libname ∷ needed_libs) visitors =
    count_needed needed_libs (modify libname (pos 0) plus_one visitors)

-- The loop over `deps`.
unfoldable pub count_visitors : DependencyGraph → VisitorMap → VisitorMap
count_visitors [] visitors = visitors
count_visitors ((libname, node) ∷ deps) visitors =
    count_visitors deps (count_needed node.needed_libs (modify libname (pos 0) (λ n. n) visitors))

-- The loop that looks for the smallest number, the last one of several.
unfoldable pub min_loop : VisitorMap → Bytes × ℤ → Bytes × ℤ
min_loop [] best = best
min_loop ((libname, n) ∷ visitors) (min_libname, min_visitors) =
    min_loop visitors (if le_int n min_visitors then (libname, n) else (min_libname, min_visitors))

abbrev pub int_max : ℕ
int_max = 2 ^ 31 - 1

-- `min_visitors == INT_MAX`
abbrev pub is_int_max : ℤ → Bool
is_int_max (pos n) = n == int_max
is_int_max (negsuc n) = false

-- `visitors[libname]--`, which is -1 for a new name.
unfoldable pub release : List Bytes → VisitorMap → VisitorMap
release [] visitors = visitors
release (libname ∷ needed_libs) visitors =
    release needed_libs (modify libname (pos 0) minus_one visitors)

-- What the `while` loop does to `visitors` for the library that it takes.
unfoldable pub remove_library : DependencyGraph → Bytes → VisitorMap → VisitorMap
remove_library deps min_libname visitors =
    release (node_at deps min_libname).needed_libs (erase min_libname visitors)

-- The `while` loop, on fuel; `result` is what it has pushed.
unfoldable pub sort_loop : ℕ → DependencyGraph → VisitorMap → List Bytes → Outcome (List Bytes)
sort_loop zero deps visitors result = out_of_fuel
sort_loop (suc f) deps visitors result = elim visitors [
  | [] ↦ done result
  | item ∷ items ↦
      let (min_libname, min_visitors) = min_loop (item ∷ items) ([], pos int_max) in
      let rest =
        sort_loop f deps (remove_library deps min_libname (item ∷ items))
          (result ++ min_libname ∷ []) in
      if is_int_max min_visitors then panic else rest
]

unfoldable pub get_topological_sorted_libraries : ℕ → DependencyGraph → Outcome (List Bytes)
get_topological_sorted_libraries fuel deps = sort_loop fuel deps (count_visitors deps []) []
