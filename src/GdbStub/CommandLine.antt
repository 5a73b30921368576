-- ===== src/GdbStub/CommandLine.antt =====
-- What gdb-stub.c starts, and that it stays within its buffers.
use ndk.Base.{
  ℕ, zero, suc, ◌+◌, ◌-◌, ◌≤◌, ◌<◌, true, false, none, some, List, [], ◌∷◌, ◌++◌, append-nil, Bytes,
  All, length, length-append, take, take-all, ltb, ◌==◌, ◌≡◌, refl, ap, ◌∙◌, sym, arith,
}
use ndk.Base.Checked.{Checked, ok}
use ndk.GdbStub.{
  cmdbufsize, gdb_to_python_rel_dir, pythonhome_rel_dir, gdb_executable_orig_filename, Windows,
  Launch, Exit, get_environment_variable, get_module_file_name, die_if_none, set_path,
  behind_backslash, strcat, argument_loop, launch, main,
}

-- Each argument with a space behind it.
abbrev pub spaced : List Bytes → Bytes
spaced [] = []
spaced (arg ∷ argv) = (arg ++ b' ' ∷ []) ++ spaced argv

take-le : (n : ℕ) (s : Bytes) → length (take n s) ≤ n
take-le zero s = omega arith
take-le (suc n) [] = omega arith
take-le (suc n) (c ∷ s) = omega (arith, take-le n s)

take-take_append : (n : ℕ) (t r : Bytes) → take n (take n t ++ r) ≡ take n (t ++ r)
take-take_append zero t r = refl
take-take_append (suc n) [] r = refl
take-take_append (suc n) (c ∷ t) r = ap (λ u. c ∷ u) (take-take_append n t r)

-- What a truncated string is followed by lies behind the space.
take-append_take :
    (n : ℕ) (s t r : Bytes)
    → length s ≤ n
    → take n ((s ++ take (n - length s) t) ++ r) ≡ take n (s ++ (t ++ r))
take-append_take n [] t r h = let e : n - 0 ≡ n = omega arith in rw e (take-take_append n t r)
take-append_take zero (c ∷ s) t r h = absurd (omega arith)
take-append_take (suc n) (c ∷ s) t r h =
    let e : suc n - suc (length s) ≡ n - length s = omega arith in
    rw e (ap (λ u. c ∷ u) (take-append_take n s t r (omega arith)))

argument_loop-take :
    (argv : List Bytes) (cmdbuf : Bytes)
    → length cmdbuf < cmdbufsize
    → argument_loop cmdbuf argv ≡ take (cmdbufsize - 1) (cmdbuf ++ spaced argv)
unfolding argument_loop
argument_loop-take [] cmdbuf h =
    sym (take-all (cmdbufsize - 1) (cmdbuf ++ []) (rw append-nil (omega arith)) ∙ append-nil cmdbuf)
argument_loop-take (arg ∷ argv) cmdbuf h =
    let space : cmdbufsize - length cmdbuf - 1 ≡ cmdbufsize - 1 - length cmdbuf = omega arith in
    let printed = take (cmdbufsize - 1 - length cmdbuf) (arg ++ b' ' ∷ []) in
    ap (λ n. argument_loop (cmdbuf ++ take n (arg ++ b' ' ∷ [])) argv) space
    ∙ argument_loop-take argv (cmdbuf ++ printed) (
        omega (
          arith,
          length-append cmdbuf printed,
          take-le (cmdbufsize - 1 - length cmdbuf) (arg ++ b' ' ∷ []),
        ))
    ∙ take-append_take (cmdbufsize - 1) cmdbuf (arg ++ b' ' ∷ []) (spaced argv) (omega arith)

-- A file's name has no backslash.
abbrev pub IsName : Bytes → Type 0
IsName = All (λ c. (c == 92) ≡ false)

no_backslash : (name : Bytes) → IsName name → behind_backslash name ≡ none
unfolding behind_backslash
no_backslash [] h = refl
no_backslash (c ∷ name) h = rw (no_backslash name h.1, (h.0))

behind_last :
    (dir name : Bytes) → IsName name → behind_backslash (dir ++ 92 ∷ name) ≡ some (length dir + 1)
unfolding behind_backslash
behind_last [] name h = rw (no_backslash name h)
behind_last (c ∷ dir) name h = rw (behind_last dir name h) (ap some (omega arith))

take-directory : (dir name : Bytes) → take (length dir + 1) (dir ++ 92 ∷ name) ≡ dir ++ 92 ∷ []
take-directory [] name = refl
take-directory (c ∷ dir) name =
    let e : suc (length dir) + 1 ≡ suc (length dir + 1) = omega arith in
    rw e (ap (λ t. c ∷ t) (take-directory dir name))

strcat-fits : (size : ℕ) (s t : Bytes) → length s + length t < size → strcat size s t ≡ ok (s ++ t)
unfolding strcat
strcat-fits size s t h = let e : ltb (length s + length t) size ≡ true = ground arith in rw e

-- What is started from a directory, which ends in a backslash: the search path with that of Python
-- in front, the home of Python, and a command line that is cut to the space.
abbrev pub launch_from : Bytes → Bytes → List Bytes → Launch
launch_from dir path argv = record {
  path = (dir ++ gdb_to_python_rel_dir) ++ b';' ∷ path;
  pythonhome = dir ++ pythonhome_rel_dir;
  command =
      take (cmdbufsize - 1) ((dir ++ (gdb_executable_orig_filename ++ b' ' ∷ [])) ++ spaced argv);
}

get_environment_variable-fits :
    (size : ℕ) (value : Bytes) (next : Bytes → Checked Exit)
    → 0 < length value
    → length value < size
    → get_environment_variable size (some value) next ≡ next value
unfolding get_environment_variable
get_environment_variable-fits size [] next h fits = absurd (omega arith)
get_environment_variable-fits size (c ∷ value) next h fits =
    let e : ltb (length (c ∷ value)) size ≡ true = ground arith in rw e

-- Let the memory be provided and the variables be set, PATH have a value of 1 to 32767 bytes, and
-- the program's file name, of less than 1024 bytes, be a directory, a backslash and a name. Then no
-- write leaves its buffer, for any arguments: the child is started from the directory, and the
-- process ends with its exit code, or as for an error where the child cannot be run. The command
-- line has at most 32767 bytes; what does not fit is cut off.
pub main-launch_from :
    (windows : Windows) (argv : List Bytes) (path dir name : Bytes)
    → ((size : ℕ) → windows.malloc size ≡ true)
    → ((variable value : Bytes) → windows.set_variable variable value ≡ true)
    → windows.path ≡ some path
    → 0 < length path
    → length path < 32768
    → windows.module_file_name ≡ some (dir ++ 92 ∷ name)
    → length (dir ++ 92 ∷ name) < 1024
    → IsName name
    → (let started = launch_from (dir ++ 92 ∷ []) path argv in
        (main windows argv ≡ launch started (windows.run started.command))
        × (length started.command ≤ 32767))
unfolding main
main-launch_from windows argv path dir name memory variables has_path there fits has_name short
      is_name =
    let home : Bytes = dir ++ 92 ∷ [] in
    let len : length home ≤ 1024 =
      omega (arith, length-append dir (92 ∷ name), length-append dir (92 ∷ [])) in
    let path_text = (home ++ gdb_to_python_rel_dir) ++ b';' ∷ path in
    let path_size = length path + length (home ++ gdb_to_python_rel_dir) + 1 + 1 in
    let whole : take (path_size - 1) path_text ≡ path_text =
      take-all (path_size - 1) path_text
        (omega (arith, length-append (home ++ gdb_to_python_rel_dir) (b';' ∷ path))) in
    let first = home ++ (gdb_executable_orig_filename ++ b' ' ∷ []) in
    let command =
      argument_loop-take argv first
        (omega (arith, length-append home (gdb_executable_orig_filename ++ b' ' ∷ []))) in
    let read_name : Bytes → Checked Exit = λ envbuf.
      die_if_none (get_module_file_name 1024 windows.module_file_name) λ cmdbuf.
        die_if_none (behind_backslash cmdbuf)
          λ sep. set_path windows argv envbuf (take sep cmdbuf) in
    (
      rw (
        memory,
        has_path,
        get_environment_variable-fits 32768 path read_name there fits,
        has_name,
        take-all 1023 (dir ++ 92 ∷ name) (omega arith),
        behind_last dir name is_name,
        take-directory dir name,
        strcat-fits cmdbufsize home gdb_to_python_rel_dir (omega arith),
        memory,
        variables,
        whole,
        strcat-fits cmdbufsize home pythonhome_rel_dir (omega arith),
        strcat-fits cmdbufsize home (gdb_executable_orig_filename ++ b' ' ∷ []) (omega arith),
        command,
        variables,
      ),
      take-le 32767 (first ++ spaced argv),
    )
