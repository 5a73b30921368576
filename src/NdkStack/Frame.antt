-- ===== src/NdkStack/Frame.antt =====
-- `ParseFrame` of ndk-stack-parser.c.
pub mod Laws
use ndk.Base.{
  ℕ, ◌-◌, ◌^◌, Option, none, some, List, [], ◌∷◌, ◌++◌, Bytes, take, ◌==◌, if◌then◌else◌,
}
use ndk.Base.Checked.{Checked, ok, out_of_bounds}
use ndk.NdkStack.Tokens.{get_next_token, find_pc}

-- What is printed, one constructor for each format; `routine` is followed by what addr2line prints
-- for a symbol file and an address.
pub data Output : Type 0 where
  crash_dump_is_completed crash_dump : Output
  fingerprint pid_line signal_line stack_frame : Bytes → Output
  no_instruction_pointer newline : Output
  unable_to_open : Bytes → Output
  routine : Bytes → Bytes → Output

-- `fopen` of a symbol file: it is there, it is not, or there is another error.
pub data Fopen : Type 0 where
  opened no_entry other_error : Fopen

pub record Symbols : Type 0 where
  pub sym_root : Bytes
  pub fopen : Bytes → Fopen
  pub addr2line_main : Bytes → Bytes → ℕ

-- -1 as an `int`.
abbrev pub minus_one : ℕ
minus_one = 2 ^ 32 - 1

-- Behind the last slash: `strrchr(path, '/') + 1`, or `none` where there is no slash.
abbrev pub behind_slash : Bytes → Option Bytes
behind_slash [] = none
behind_slash (c ∷ path) = elim (behind_slash path) [
  | some name ↦ some name
  | none ↦ if c == b'/' then some path else none
]

abbrev pub name_of : Bytes → Option Bytes → Bytes
name_of path none = path
name_of path (some []) = path
name_of path (some (c ∷ name)) = c ∷ name

abbrev pub module_name : Bytes → Bytes
module_name path = name_of path (behind_slash path)

-- `snprintf` into 2048 bytes.
abbrev pub sym_file : Bytes → Bytes → Bytes
sym_file root name = take 2047 (root ++ b'/' ∷ name)

-- From the opening of the symbol file on.
abbrev pub opened_as : Fopen → Symbols → Bytes → Bytes → ℕ × List Output
opened_as no_entry symbols file pc_address = (minus_one, newline ∷ [])
opened_as other_error symbols file pc_address = (minus_one, unable_to_open file ∷ [])
opened_as opened symbols file pc_address =
    (symbols.addr2line_main file pc_address, routine file pc_address ∷ [])

abbrev pub symbolize : Symbols → Bytes → Bytes → ℕ × List Output
symbolize symbols file pc_address = opened_as (symbols.fopen file) symbols file pc_address

-- Behind the instruction pointer token. Where there is no address, the buffer is read without being
-- set and NULL is searched; where there is no module path, its buffer is read without being set.
unfoldable pub symbolize_at : Symbols → Bytes → Checked (ℕ × List Output)
symbolize_at symbols pc = elim (get_next_token 17 pc) [
  | none ↦ out_of_bounds
  | some (pc_address, wrk) ↦ elim (get_next_token 2048 wrk) [
    | none ↦ out_of_bounds
    | some (module_path, _) ↦
        ok (symbolize symbols (sym_file symbols.sym_root (module_name module_path)) pc_address)
  ]
]

abbrev pub printed_first : Output → Checked (ℕ × List Output) → Checked (ℕ × List Output)
printed_first line (ok (code, lines)) = ok (code, line ∷ lines)
printed_first line r = r

unfoldable pub parse_frame : Symbols → Bytes → Checked (ℕ × List Output)
parse_frame symbols frame = printed_first (stack_frame frame) (elim (find_pc frame) [
  | none ↦ ok (minus_one, no_instruction_pointer ∷ [])
  | some pc ↦ symbolize_at symbols pc
])
