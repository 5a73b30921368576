-- ===== src/NdkStack/Main.antt =====
-- `main` of ndk-stack.c: the command line, and the loop over the lines of the dump.
pub mod Lines
use ndk.Base.{
  ℕ, zero, suc, ◌||◌, Bool, true, false, Option, none, some, List, [], ◌∷◌, ◌++◌, Bytes, codes,
  length, equal, ◌==◌, if◌then◌else◌,
}

-- `dump_file` and `sym_path`.
pub record Arguments : Type 0 where
  pub dump_file : Option Bytes
  pub sym_path : Option Bytes

-- The loop over `argv` behind the program's name; `none` is the usage message and -1.
unfoldable pub parse_arguments : List Bytes → Arguments → Option Arguments
parse_arguments [] a = some a
parse_arguments (arg ∷ []) a =
    if equal arg (codes "-dump") || equal arg (codes "-sym") then some a else none
parse_arguments (arg ∷ value ∷ argv) a =
    let dumped = parse_arguments argv (record a { dump_file = some value }) in
    let symbols = parse_arguments argv (record a { sym_path = some value }) in
    if equal arg (codes "-dump") then dumped else if equal arg (codes "-sym") then symbols else none

abbrev pub with_sym_path : Option Arguments → Option Arguments
with_sym_path none = none
with_sym_path (some a) = elim a.sym_path [ none ↦ none | some path ↦ some a ]

unfoldable pub parse_command_line : List Bytes → Option Arguments
parse_command_line argv =
    with_sym_path (parse_arguments argv (record { dump_file = none; sym_path = none }))

-- `fgets(str, size, handle)`: at most `n` bytes up to the first newline, and what is left.
abbrev pub fgets : ℕ → Bytes → Bytes × Bytes
fgets n [] = ([], [])
fgets zero (c ∷ file) = ([], c ∷ file)
fgets (suc n) (c ∷ file) =
    let (line, rest) = fgets n file in if c == b'\n' then (c ∷ [], file) else (c ∷ line, rest)

-- `str[strcspn(str, "\r\n")] = '\0'`, as the C string that is left.
abbrev pub chop : Bytes → Bytes
chop [] = []
chop (c ∷ line) = if c == 0 || c == b'\r' || c == b'\n' then [] else c ∷ chop line

-- The strings that the `while` loop hands to `ParseLine`, on fuel.
unfoldable pub line_loop : ℕ → Bytes → Option (List Bytes)
line_loop zero file = none
line_loop (suc f) [] = some []
line_loop (suc f) (c ∷ file) = elim (line_loop f (fgets 2047 (c ∷ file)).1) [
  | none ↦ none
  | some lines ↦ some (chop (fgets 2047 (c ∷ file)).0 ∷ lines)
]

unfoldable pub dump_lines : Bytes → Option (List Bytes)
dump_lines file = line_loop (suc (length file)) file
