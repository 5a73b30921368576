-- ===== src/Toolbox.antt =====
-- sources/host-tools/toolbox/cmp_win.c and echo_win.c, on files and arguments as lists of bytes.
pub mod Compare
pub mod Echo
use ndk.Base.{
  ℕ, zero, suc, Bool, true, false, not, ◌||◌, Option, none, some, List, [], ◌∷◌, ◌++◌, Bytes, codes,
  length, take, drop, equal, ◌==◌, if◌then◌else◌,
}

abbrev pub bufsize : ℕ
bufsize = 4096

-- `n1 != n2 || memcmp(buf1, buf2, n1) != 0`
abbrev pub differ : Bytes → Bytes → Bool
differ buf1 buf2 = not (length buf1 == length buf2) || not (equal buf1 buf2)

-- The `do` loop of cmp_win.c with a buffer of `size` bytes, on fuel. `fread` gives all of the bytes
-- that are left, up to the size of the buffer.
unfoldable pub compare_loop : ℕ → ℕ → Bytes → Bytes → Option Bool
compare_loop size zero f1 f2 = none
compare_loop size (suc f) f1 f2 =
    let rest = compare_loop size f (drop size f1) (drop size f2) in
    if differ (take size f1) (take size f2)
    then some true
    else if length (take size f1) == size
    then rest
    else some false

-- The exit status 1 as `true`.
unfoldable pub compare_files : Bytes → Bytes → Option Bool
compare_files f1 f2 = compare_loop bufsize (suc (length f1)) f1 f2

-- The arguments behind `-s`.
abbrev pub behind_option : Bytes → List Bytes → List Bytes
behind_option option [] = []
behind_option option (arg ∷ argv) = if equal arg option then argv else arg ∷ argv

-- `main` of cmp_win.c, where `tfopen` says what a file holds; the result is the exit status, which
-- is also 1 for a wrong number of arguments and for a file that cannot be opened.
abbrev pub compare_opened : Option Bytes → Option Bytes → Option Bool
compare_opened none f2 = some true
compare_opened (some f1) none = some true
compare_opened (some f1) (some f2) = compare_files f1 f2

abbrev pub compare_arguments : (Bytes → Option Bytes) → List Bytes → Option Bool
compare_arguments tfopen (name1 ∷ name2 ∷ []) = compare_opened (tfopen name1) (tfopen name2)
compare_arguments tfopen _ = some true

unfoldable pub cmp : (Bytes → Option Bytes) → List Bytes → Option Bool
cmp tfopen argv = compare_arguments tfopen (behind_option (codes "-s") argv)

-- The loop of echo_win.c, with what is printed before the next argument.
abbrev pub echo_loop : Bytes → List Bytes → Bytes
echo_loop comma [] = []
echo_loop comma (arg ∷ argv) = (comma ++ arg) ++ echo_loop (codes " ") argv

abbrev pub no_newline : List Bytes → Bool
no_newline [] = false
no_newline (arg ∷ argv) = equal arg (codes "-n")

-- What `main` of echo_win.c prints for the arguments behind the program's name.
unfoldable pub echo : List Bytes → Bytes
echo argv =
    echo_loop [] (behind_option (codes "-n") argv) ++ (if no_newline argv then [] else b'\n' ∷ [])
