-- ===== src/GdbStub.antt =====
-- sources/host-tools/gdb-stub/gdb-stub.c, with the names that the file defines where the build
-- defines none: the strings that it builds in its buffers. A buffer holds a C string, a list of
-- bytes without its NUL. The job object and the handles of the standard streams are left out.
pub mod CommandLine
use ndk.Base.{
  ℕ, zero, suc, ◌+◌, ◌-◌, ◌*◌, Bool, true, false, Option, none, some, List, [], ◌∷◌, ◌++◌, Bytes,
  codes, length, take, ltb, ◌==◌, if◌then◌else◌,
}
use ndk.Base.Checked.{Checked, ok, out_of_bounds, ◌>>=◌}

abbrev pub envbufsize : ℕ
envbufsize = 1024 * 32

abbrev pub exebufsize : ℕ
exebufsize = 1024

abbrev pub cmdbufsize : ℕ
cmdbufsize = envbufsize

-- GDB_TO_PYTHON_REL_DIR, PYTHONHOME_REL_DIR and GDB_EXECUTABLE_ORIG_FILENAME.
abbrev pub gdb_to_python_rel_dir : Bytes
gdb_to_python_rel_dir = codes "..\\opt\\bin"

abbrev pub pythonhome_rel_dir : Bytes
pythonhome_rel_dir = codes "..\\opt"

abbrev pub gdb_executable_orig_filename : Bytes
gdb_executable_orig_filename = codes "gdborig.exe"

-- What the process asks of Windows: memory of a size, the variable PATH, the program's file name,
-- whether a variable can be set, and the exit code of a child, if it can be created and waited for.
pub record Windows : Type 0 where
  pub malloc : ℕ → Bool
  pub path : Option Bytes
  pub module_file_name : Option Bytes
  pub set_variable : Bytes → Bytes → Bool
  pub run : Bytes → Option ℕ

-- The process ends with an exit code; a child was started with the variables PATH and PYTHONHOME
-- and a command line, or none was.
pub record Launch : Type 0 where
  pub path : Bytes
  pub pythonhome : Bytes
  pub command : Bytes

pub data Exit : Type 0 where
  died : Exit
  launched : Launch → ℕ → Exit

-- `DIE_IF_FALSE`
abbrev pub die_if_false : Bool → Checked Exit → Checked Exit
die_if_false true next = next
die_if_false false next = ok died

abbrev pub die_if_none {ℓ} : {A : Type ℓ} → Option A → (A → Checked Exit) → Checked Exit
die_if_none none next = ok died
die_if_none (some a) next = next a

-- `GetEnvironmentVariable(name, buffer, size)`, which gives 0 for a variable that is not there and
-- for an empty one, and for a value that does not fit leaves the buffer as it was, which nothing
-- has written to.
unfoldable pub get_environment_variable : ℕ → Option Bytes → (Bytes → Checked Exit) → Checked Exit
get_environment_variable size none next = ok died
get_environment_variable size (some []) next = ok died
get_environment_variable size (some (c ∷ value)) next =
    if ltb (length (c ∷ value)) size then next (c ∷ value) else out_of_bounds

-- `GetModuleFileName(0, buffer, size)`, which cuts a longer name.
abbrev pub get_module_file_name : ℕ → Option Bytes → Option Bytes
get_module_file_name size none = none
get_module_file_name size (some name) = some (take (size - 1) name)

abbrev pub last_backslash : ℕ → Option ℕ → Option ℕ
last_backslash c (some n) = some (suc n)
last_backslash c none = if c == 92 then some 1 else none

-- `strrchr(s, '\\') + 1 - s`
unfoldable pub behind_backslash : Bytes → Option ℕ
behind_backslash [] = none
behind_backslash (c ∷ s) = last_backslash c (behind_backslash s)

-- `strcat(s, t)` in a buffer of a size.
unfoldable pub strcat : ℕ → Bytes → Bytes → Checked Bytes
strcat size s t = if ltb (length s + length t) size then ok (s ++ t) else out_of_bounds

-- The string that `snprintf` leaves in a buffer of a size that is not 0.
abbrev pub snprintf : ℕ → Bytes → Bytes
snprintf size text = take (size - 1) text

-- The loop over the arguments. A size of 0 lets `snprintf` write nothing.
unfoldable pub argument_loop : Bytes → List Bytes → Bytes
argument_loop cmdbuf [] = cmdbuf
argument_loop cmdbuf (arg ∷ argv) =
    argument_loop (cmdbuf ++ snprintf (cmdbufsize - length cmdbuf) (arg ++ b' ' ∷ [])) argv

abbrev pub launch : Launch → Option ℕ → Checked Exit
launch l code = die_if_none code λ exit_code. ok (launched l exit_code)

-- From the second truncation of `cmdbuf` on: PYTHONHOME and the command line.
abbrev pub set_home : Windows → List Bytes → Bytes → Bytes → Checked Exit
set_home windows argv dir resbuf = strcat cmdbufsize dir pythonhome_rel_dir >>= λ home.
    die_if_false (windows.set_variable (codes "PYTHONHOME") home) (
      strcat cmdbufsize dir (gdb_executable_orig_filename ++ b' ' ∷ []) >>= λ cmdbuf.
      let command = argument_loop cmdbuf argv in
      launch (record { path = resbuf; pythonhome = home; command = command }) (windows.run command))

-- From the first truncation of `cmdbuf` on: PATH.
abbrev pub set_path : Windows → List Bytes → Bytes → Bytes → Checked Exit
set_path windows argv envbuf dir = strcat cmdbufsize dir gdb_to_python_rel_dir >>= λ cmdbuf.
    let len = length envbuf + length cmdbuf + 1 + 1 in
    let resbuf = snprintf len (cmdbuf ++ b';' ∷ envbuf) in
    die_if_false (windows.malloc len)
      (die_if_false (windows.set_variable (codes "PATH") resbuf) (set_home windows argv dir resbuf))

-- `main` on the arguments behind the program's name.
unfoldable pub main : Windows → List Bytes → Checked Exit
main windows argv = die_if_false (windows.malloc envbufsize) (
    die_if_false (windows.malloc cmdbufsize) (
      get_environment_variable envbufsize windows.path λ envbuf.
        die_if_none (get_module_file_name exebufsize windows.module_file_name) λ cmdbuf.
          die_if_none (behind_backslash cmdbuf)
            λ sep. set_path windows argv envbuf (take sep cmdbuf)))
