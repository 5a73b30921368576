-- ===== src/NdkDepends/Search/Laws.antt =====
-- What FindLibraryPath and the loop over LD_LIBRARY_PATH of ndk-depends.cc give.
use ndk.Base.{
  zero, suc, ◌<◌, true, false, Option, none, some, List, [], ◌∷◌, ◌++◌, Bytes, length,
  length-append, append_assoc, ℕ, ◌==◌, All, Bool-cases, ◌≡◌, ◌≢◌, ◌⊎◌, inl, inr, refl, ap, ◌∙◌,
  arith,
}
use ndk.NdkDepends.Search.{
  System, is_regular, wants_slash, file_path, find_library_path, both, path_item, behind_colon,
  path_of_item, library_path_loop, library_path,
}

-- A directory that ends in a slash or in a backslash.
abbrev pub EndsInSeparator : Bytes → Type 0
EndsInSeparator dir = (start : Bytes) × ((dir ≡ start ++ b'/' ∷ []) ⊎ (dir ≡ start ++ 92 ∷ []))

-- The path of a file in a directory: behind a slash, unless the directory ends in a separator.
abbrev pub IsJoined : Bytes → Bytes → Bytes → Type 0
IsJoined dir libname path =
    (EndsInSeparator dir × (path ≡ dir ++ libname))
    ⊎ ((¬ EndsInSeparator dir) × (path ≡ dir ++ b'/' ∷ libname))

last-injective : (c x : ℕ) (start : Bytes) → (c ∷ []) ≡ start ++ x ∷ [] → c ≡ x
last-injective c x [] e = cc
last-injective c x (d ∷ []) e = cc
last-injective c x (d ∷ d' ∷ start) e = cc

EndsInSeparator-one : (c : ℕ) → EndsInSeparator (c ∷ []) → (c ≡ b'/') ⊎ (c ≡ 92)
EndsInSeparator-one c (start, inl e) = inl (last-injective c b'/' start e)
EndsInSeparator-one c (start, inr e) = inr (last-injective c 92 start e)

EndsInSeparator-tail :
    (c d : ℕ) (dir : Bytes) → EndsInSeparator (c ∷ d ∷ dir) → EndsInSeparator (d ∷ dir)
EndsInSeparator-tail c d dir ([], inl e) = cc
EndsInSeparator-tail c d dir ([], inr e) = cc
EndsInSeparator-tail c d dir (b ∷ start, inl e) = (start, inl cc)
EndsInSeparator-tail c d dir (b ∷ start, inr e) = (start, inr cc)

EndsInSeparator-cons : (c : ℕ) (dir : Bytes) → EndsInSeparator dir → EndsInSeparator (c ∷ dir)
EndsInSeparator-cons c dir (start, inl e) = (c ∷ start, inl (ap (λ t. c ∷ t) e))
EndsInSeparator-cons c dir (start, inr e) = (c ∷ start, inr (ap (λ t. c ∷ t) e))

wants_slash-cases :
    (c : ℕ) (dir : Bytes)
    → ((wants_slash (c ∷ dir) ≡ false) × EndsInSeparator (c ∷ dir))
      ⊎ ((wants_slash (c ∷ dir) ≡ true) × (¬ EndsInSeparator (c ∷ dir)))
wants_slash-cases c [] = elim (Bool-cases (c == b'/')) [
  | inl slash ↦ inl (rw slash refl, ([], inl (ap (λ b. b ∷ []) (ground arith))))
  | inr other ↦ elim (Bool-cases (c == 92)) [
    | inl backslash ↦ inl (rw (other, backslash) refl, ([], inr (ap (λ b. b ∷ []) (ground arith))))
    | inr neither ↦ inr (
      rw (other, neither) refl,
      λ ends. elim (EndsInSeparator-one c ends) [ inl e ↦ ground arith | inr e ↦ ground arith ],
    )
  ]
]
wants_slash-cases c (d ∷ dir) = elim (wants_slash-cases d dir) [
  | inl (e, ends) ↦ inl (e, EndsInSeparator-cons c (d ∷ dir) ends)
  | inr (e, not_ends) ↦ inr (e, λ ends. not_ends (EndsInSeparator-tail c d dir ends))
]

file_path-IsJoined :
    (c : ℕ) (dir libname : Bytes) → IsJoined (c ∷ dir) libname (file_path (c ∷ dir) libname)
file_path-IsJoined c dir libname = elim (wants_slash-cases c dir) [
  | inl (e, ends) ↦ inl (ends, rw e refl)
  | inr (e, not_ends) ↦ inr (not_ends, rw e (append_assoc (c ∷ dir) (b'/' ∷ []) libname))
]

-- A directory that is skipped: the empty one, or one without a regular file of that name.
abbrev pub IsSkipped : System → Bytes → Bytes → Type 0
IsSkipped system libname dir =
    (dir ≡ [])
    ⊎ ((path : Bytes) × IsJoined dir libname path × (is_regular (system.stat path) ≡ false))

-- What the search finds: nothing, where all directories are skipped, or the path of a regular file
-- in a directory that is not empty, where all before it are skipped.
abbrev pub IsFirst : System → Bytes → List Bytes → Option Bytes → Type 0
IsFirst system libname search_paths none = All (IsSkipped system libname) search_paths
IsFirst system libname search_paths (some path) =
    (before : List Bytes) × (dir : Bytes) × (behind : List Bytes) × (search_paths
      ≡ before ++ dir ∷ behind)
    × All (IsSkipped system libname) before
    × (dir ≢ [])
    × IsJoined dir libname path
    × (is_regular (system.stat path) ≡ true)

IsFirst-skip :
    (system : System) (libname dir : Bytes) (search_paths : List Bytes) (found : Option Bytes)
    → IsSkipped system libname dir
    → IsFirst system libname search_paths found
    → IsFirst system libname (dir ∷ search_paths) found
IsFirst-skip system libname dir search_paths none skipped all = (skipped, all)
IsFirst-skip system libname dir search_paths (some path) skipped
      (before, first, behind, split, all, nonempty, joined, regular) =
    (
      dir ∷ before,
      first,
      behind,
      ap (λ t. dir ∷ t) split,
      (skipped, all),
      nonempty,
      joined,
      regular,
    )

-- The first directory of the search path that is not empty and has a regular file of the library's
-- name gives the path, which is the directory's name, a slash unless that ends in one or in a
-- backslash, and the library's name; all before it are skipped. There is no path only where all
-- directories are skipped.
pub find_library_path-IsFirst :
    (system : System) (libname : Bytes) (search_paths : List Bytes)
    → IsFirst system libname search_paths (find_library_path system libname search_paths)
unfolding find_library_path
find_library_path-IsFirst system libname [] = tt
find_library_path-IsFirst system libname ([] ∷ search_paths) =
    IsFirst-skip system libname [] search_paths _ (inl refl)
      (find_library_path-IsFirst system libname search_paths)
find_library_path-IsFirst system libname ((c ∷ path) ∷ search_paths) =
    let joined = file_path-IsJoined c path libname in
    elim (Bool-cases (is_regular (system.stat (file_path (c ∷ path) libname)))) [
      | inl here ↦ rw here ([], c ∷ path, search_paths, refl, tt, (λ e. cc), joined, here)
      | inr other ↦ rw other (
          IsFirst-skip system libname (c ∷ path) search_paths _
            (inr (file_path (c ∷ path) libname, joined, other))
            (find_library_path-IsFirst system libname search_paths))
    ]

-- An item has no colon.
abbrev pub IsItem : Bytes → Type 0
IsItem = All (λ c. (c == b':') ≡ false)

-- Items without colons, the last one not empty, and the text that they make.
abbrev pub AreItems : List Bytes → Type 0
AreItems [] = Unit
AreItems (item ∷ []) = IsItem item × (item ≢ [])
AreItems (item ∷ next ∷ items) = IsItem item × AreItems (next ∷ items)

abbrev pub join_colons : List Bytes → Bytes
join_colons [] = []
join_colons (item ∷ []) = item
join_colons (item ∷ next ∷ items) = item ++ b':' ∷ join_colons (next ∷ items)

abbrev pub paths_of : List Bytes → List Bytes
paths_of [] = []
paths_of (item ∷ items) = path_of_item item ∷ paths_of items

path_item-last : (item : Bytes) → IsItem item → (path_item item ≡ item) × (behind_colon item ≡ [])
path_item-last [] h = (refl, refl)
path_item-last (c ∷ item) h = let (e, e') = path_item-last item h.1 in (rw (h.0, e), rw (h.0, e'))

path_item-colon :
    (item rest : Bytes)
    → IsItem item
    → (path_item (item ++ b':' ∷ rest) ≡ item) × (behind_colon (item ++ b':' ∷ rest) ≡ rest)
path_item-colon [] rest h = (refl, refl)
path_item-colon (c ∷ item) rest h =
    let (e, e') = path_item-colon item rest h.1 in (rw (h.0, e), rw (h.0, e'))

-- A round of the loop on a text that is not empty.
library_path_loop-round :
    (f : ℕ) (pos item rest : Bytes)
    → pos ≢ []
    → path_item pos ≡ item
    → behind_colon pos ≡ rest
    → library_path_loop (suc f) pos
      ≡ both (some (path_of_item item ∷ [])) (library_path_loop f rest)
unfolding library_path_loop
library_path_loop-round f [] item rest some_left e e' = absurd (some_left refl)
library_path_loop-round f (c ∷ pos) item rest some_left e e' = rw (e, e')

not_empty : (item rest : Bytes) → (item ++ b':' ∷ rest) ≢ []
not_empty [] rest e = cc
not_empty (c ∷ item) rest e = cc

library_path_loop-join :
    (f : ℕ) (items : List Bytes)
    → length (join_colons items) < f
    → AreItems items
    → library_path_loop f (join_colons items) ≡ some (paths_of items)
unfolding library_path_loop
library_path_loop-join zero items h all = elim h [ ]
library_path_loop-join (suc f) [] h all = refl
library_path_loop-join (suc zero) ((c ∷ item) ∷ []) h all = absurd (omega arith)
library_path_loop-join (suc (suc f)) (item ∷ []) h all =
    let (e, e') = path_item-last item all.0 in
    library_path_loop-round (suc f) item item [] all.1 e e'
library_path_loop-join (suc zero) ([] ∷ []) h all = absurd (all.1 refl)
library_path_loop-join (suc f) (item ∷ next ∷ items) h all =
    let rest = join_colons (next ∷ items) in
    let (e, e') = path_item-colon item rest all.0 in
    let shorter : length rest < f = omega (arith, length-append item (b':' ∷ rest)) in
    let ih = library_path_loop-join f (next ∷ items) shorter all.1 in
    library_path_loop-round f (item ++ b':' ∷ rest) item rest (not_empty item rest) e e'
    ∙ ap (both (some (path_of_item item ∷ []))) ih

-- A list of items that are joined by colons gives each item in its place, and the current directory
-- for an empty one. The last item must not be empty: one behind the last colon is dropped.
pub library_path-join :
    (items : List Bytes)
    → AreItems items
    → library_path (some (join_colons items)) ≡ some (paths_of items)
library_path-join items all =
    library_path_loop-join (suc (length (join_colons items))) items (omega arith) all
