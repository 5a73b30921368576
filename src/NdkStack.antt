-- ===== src/NdkStack.antt =====
-- sources/host-tools/ndk-stack/ndk-stack-parser.c: the parser of crash dumps, over C strings. The
-- regular expressions and addr2line are copies of other projects, and parameters here.
pub mod Tokens
pub mod Frame
pub mod Main
pub mod Dumps
use ndk.Base.{
  ℕ, zero, suc, Bool, true, false, ◌||◌, Option, none, some, List, [], ◌∷◌, ◌++◌, Bytes, codes,
  drop, if◌then◌else◌,
}
use ndk.Base.Checked.{Checked, ok, ◌>>=◌}
use ndk.NdkStack.Tokens.{strstr, find_pc}
use ndk.NdkStack.Frame.{
  Output, Symbols, parse_frame, crash_dump_is_completed, crash_dump, fingerprint, pid_line,
  signal_line,
}

-- `enum NDK_CRASH_PARSER_STATE`
pub data ParserState : Type 0 where
  expects_crash_dump : ParserState
  expects_build_fingerprint_or_pid : ParserState
  expects_pid : ParserState
  expects_signal_or_frame : ParserState
  expects_frame : ParserState

-- The three compiled expressions.
pub data Regex : Type 0 where
  re_pid_header re_sig_header re_frame_header : Regex

-- `struct NdkCrashParser` but for its state: where a regular expression matches in a line
-- (`rm_so`), and what `parse_frame` uses.
pub record Parser : Type 0 where
  pub match_regex : Regex → Bytes → Option ℕ
  pub symbols : Symbols

-- The return value, the new state, and what is printed.
pub record Parsed : Type 0 where
  pub returns : ℕ
  pub state : ParserState
  pub printed : List Output

abbrev pub crash_dump_header : Bytes
crash_dump_header = codes "*** *** *** *** *** *** *** *** *** *** *** *** *** *** *** ***"

abbrev pub build_fingerprint_header : Bytes
build_fingerprint_header = codes "Build fingerprint:"

abbrev pub contains : Bytes → Bytes → Bool
contains line text = elim (strstr none line text) [ none ↦ false | some _ ↦ true ]

-- `!found`
abbrev pub not_found : Bool → ℕ
not_found true = 0
not_found false = 1

abbrev pub in_progress : ParserState → List Output
in_progress expects_crash_dump = []
in_progress _ = crash_dump_is_completed ∷ []

-- `case EXPECTS_PID`, reached with `found` and what is printed before.
unfoldable pub parse_pid : Parser → Bytes → Bool → ParserState → List Output → Parsed
parse_pid parser line found state printed = elim (parser.match_regex re_pid_header line) [
  | none ↦ record { returns = not_found found; state = state; printed = printed }
  | some so ↦ record {
    returns = 0;
    state = expects_signal_or_frame;
    printed = printed ++ pid_line (drop so line) ∷ [];
  }
]

-- `case EXPECTS_BUILD_FINGREPRINT_OR_PID`, which falls through.
unfoldable pub parse_fingerprint : Parser → Bytes → Parsed
parse_fingerprint parser line = elim (strstr none line build_fingerprint_header) [
  | none ↦ parse_pid parser line false expects_build_fingerprint_or_pid []
  | some (before, rest) ↦ parse_pid parser line true expects_pid (fingerprint rest ∷ [])
]

-- `case EXPECTS_FRAME`, reached with `found` and what is printed before.
unfoldable pub parse_frame_line : Parser → Bytes → Bool → ParserState → List Output → Checked Parsed
parse_frame_line parser line found state printed =
    let nothing = ok (record { returns = not_found found; state = state; printed = printed }) in
    elim (parser.match_regex re_frame_header line) [
      | none ↦ nothing
      | some so ↦ elim (find_pc line) [
        | none ↦ nothing
        | some pc ↦ parse_frame parser.symbols (drop so line) >>= λ (code, lines).
            ok (record { returns = code; state = expects_frame; printed = printed ++ lines })
      ]
    ]

-- `case EXPECTS_SIGNAL_OR_FRAME`, which falls through.
unfoldable pub parse_signal : Parser → Bytes → Checked Parsed
parse_signal parser line = elim (parser.match_regex re_sig_header line) [
  | none ↦ parse_frame_line parser line false expects_signal_or_frame []
  | some so ↦ parse_frame_line parser line true expects_frame (signal_line (drop so line) ∷ [])
]

-- The `switch`.
unfoldable pub parse_state : Parser → ParserState → Bytes → Checked Parsed
parse_state parser expects_crash_dump line =
    ok (record { returns = 1; state = expects_crash_dump; printed = [] })
parse_state parser expects_build_fingerprint_or_pid line = ok (parse_fingerprint parser line)
parse_state parser expects_pid line = ok (parse_pid parser line false expects_pid [])
parse_state parser expects_signal_or_frame line = parse_signal parser line
parse_state parser expects_frame line = parse_frame_line parser line false expects_frame []

unfoldable pub parse_line : Parser → ParserState → Bytes → Checked Parsed
parse_line parser state [] = ok (record { returns = 1; state = state; printed = [] })
parse_line parser state (c ∷ line) =
    if contains (c ∷ line) crash_dump_header
    then ok (record {
      returns = 0;
      state = expects_build_fingerprint_or_pid;
      printed = in_progress state ++ crash_dump ∷ [];
    })
    else parse_state parser state (c ∷ line)
