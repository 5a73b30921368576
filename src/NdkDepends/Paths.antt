-- ===== src/NdkDepends/Paths.antt =====
-- The path utilities of ndk-depends.cc.
pub mod Parts
use ndk.Base.{
  ℕ, zero, suc, Bool, true, false, Option, none, some, List, [], ◌∷◌, ◌++◌, Bytes, take, drop, ◌==◌,
  if◌then◌else◌,
}

abbrev pub last_dirsep : ℕ → Option ℕ → Option ℕ
last_dirsep c (some sep) = some (suc sep)
last_dirsep c none = if c == b'/' then some 0 else none

-- `filepath.rfind('/')`; `none` is `npos`.
unfoldable pub path_last_dirsep : Bytes → Option ℕ
path_last_dirsep [] = none
path_last_dirsep (c ∷ filepath) = last_dirsep c (path_last_dirsep filepath)

abbrev pub dirname_at : Bytes → Option ℕ → Bytes
dirname_at filepath none = b'.' ∷ []
dirname_at filepath (some zero) = b'/' ∷ []
dirname_at filepath (some (suc sep)) = take (suc sep) filepath

unfoldable pub path_dirname : Bytes → Bytes
path_dirname filepath = dirname_at filepath (path_last_dirsep filepath)

abbrev pub basename_at : Bytes → Option ℕ → Bytes
basename_at filepath none = filepath
basename_at filepath (some sep) = drop (suc sep) filepath

unfoldable pub path_basename : Bytes → Bytes
path_basename filepath = basename_at filepath (path_last_dirsep filepath)
