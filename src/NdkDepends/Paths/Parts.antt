-- ===== src/NdkDepends/Paths/Parts.antt =====
-- The directory and the name that the path utilities of ndk-depends.cc split a path into.
use ndk.Base.{
  ℕ, suc, false, none, some, [], ◌∷◌, ◌++◌, Bytes, codes, take, drop, length, ◌==◌, ◌≡◌, refl, ap,
  All,
}
use ndk.NdkDepends.Paths.{path_last_dirsep, dirname_at, path_dirname, path_basename}

-- A file's name has no slash.
abbrev pub IsName : Bytes → Type 0
IsName = All (λ c. (c == b'/') ≡ false)

last_dirsep-name : (name : Bytes) → IsName name → path_last_dirsep name ≡ none
unfolding path_last_dirsep
last_dirsep-name [] h = refl
last_dirsep-name (c ∷ name) h = rw (last_dirsep-name name h.1, (h.0))

last_dirsep-join :
    (dir name : Bytes) → IsName name → path_last_dirsep (dir ++ b'/' ∷ name) ≡ some (length dir)
unfolding path_last_dirsep
last_dirsep-join [] name h = rw (last_dirsep-name name h)
last_dirsep-join (c ∷ dir) name h = rw (last_dirsep-join dir name h)

take-length : (dir rest : Bytes) → take (length dir) (dir ++ rest) ≡ dir
take-length [] rest = refl
take-length (c ∷ dir) rest = ap (λ t. c ∷ t) (take-length dir rest)

drop-length :
    (dir : Bytes) (c : ℕ) (rest : Bytes) → drop (suc (length dir)) (dir ++ c ∷ rest) ≡ rest
drop-length [] c rest = refl
drop-length (d ∷ dir) c rest = drop-length dir c rest

-- The directory of a path is `/` where nothing stands before the last slash.
abbrev pub directory_of : Bytes → Bytes
directory_of [] = b'/' ∷ []
directory_of (c ∷ dir) = c ∷ dir

dirname_at-length :
    (dir rest : Bytes) → dirname_at (dir ++ rest) (some (length dir)) ≡ directory_of dir
dirname_at-length [] rest = refl
dirname_at-length (c ∷ dir) rest = ap (λ t. c ∷ t) (take-length dir rest)

-- A directory, a slash and a name without slashes are split again: into the name, and the directory
-- or `/` where the directory was empty. A name alone is in the directory `.`.
pub path_parts :
    (dir name : Bytes)
    → IsName name
    → (path_dirname (dir ++ b'/' ∷ name) ≡ directory_of dir)
      × (path_basename (dir ++ b'/' ∷ name) ≡ name)
      × (path_dirname name ≡ codes ".")
      × (path_basename name ≡ name)
unfolding path_dirname path_basename
path_parts dir name h = (
  rw (last_dirsep-join dir name h) (dirname_at-length dir (b'/' ∷ name)),
  rw (last_dirsep-join dir name h) (drop-length dir b'/' name),
  rw (last_dirsep-name name h),
  rw (last_dirsep-name name h),
)
