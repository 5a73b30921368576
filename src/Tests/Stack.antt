-- ===== src/Tests/Stack.antt =====
-- Crash dumps for ndk-stack.
use ndk.Base.{◌≡◌, refl, none, some, [], ◌∷◌, Bytes, codes, All, arith}
use ndk.Base.Checked.{ok, out_of_bounds}
use ndk.NdkStack.Tokens.{strstr, find_pc, find_word}
use ndk.NdkStack.Frame.{crash_dump, stack_frame, routine, opened, Symbols, parse_frame}
use ndk.NdkStack.Frame.Laws.{parse_frame-routine, parse_frame-undefined}
use ndk.NdkStack.Main.{dump_lines}
use ndk.NdkStack.Main.Lines.{IsLine, dump_lines-join_lines}
use ndk.NdkStack.{
  expects_crash_dump, expects_build_fingerprint_or_pid, Parser, crash_dump_header, parse_line,
}
use ndk.NdkStack.Dumps.Quiet.{dumps_in}
use ndk.NdkStack.Dumps.{parse_lines, Counts, parse_lines-Counts}

abbrev symbols : Symbols
symbols = record {
  sym_root = codes "obj";
  fopen = λ file. opened;
  addr2line_main = λ file address. 0;
}

abbrev parser : Parser
parser = record { match_regex = λ regex line. none; symbols = symbols }

parse_lines-Counts_example :
    Counts expects_crash_dump expects_build_fingerprint_or_pid
      (dumps_in (crash_dump_header ∷ []))
      (crash_dump ∷ [])
unfolding parse_lines parse_line strstr
parse_lines-Counts_example =
    parse_lines-Counts parser expects_crash_dump expects_build_fingerprint_or_pid
      (crash_dump_header ∷ []) (crash_dump ∷ []) refl

abbrev frame : Bytes
frame = codes "#00 pc 00a1 /lib/a.so"

parse_frame-routine_example :
    parse_frame symbols frame
    ≡ ok (0, stack_frame frame ∷ routine (codes "obj/a.so") (codes "00a1") ∷ [])
unfolding find_pc find_word strstr
parse_frame-routine_example =
    parse_frame-routine symbols frame (codes "pc") b' ' [] b'0' (codes "0a1") b' ' [] b'/'
      (codes "lib/a.so") [] refl (refl, (refl, tt)) (refl, tt) (refl, (refl, (refl, (refl, tt))))
      (refl, tt) (refl, (refl, (refl, (refl, (refl, (refl, (refl, (refl, (refl, tt))))))))) tt refl

parse_frame-undefined_example : parse_frame symbols (codes "#00 pc ") ≡ out_of_bounds
unfolding find_pc find_word strstr
parse_frame-undefined_example =
    parse_frame-undefined symbols (codes "#00 pc ") (codes "pc") (codes " ") refl (refl, (refl, tt))
      (refl, tt)

two_lines-IsLine : All IsLine (codes "ab" ∷ [] ∷ [])
two_lines-IsLine = (((refl, (refl, tt)), omega arith), ((tt, omega arith), tt))

dump_lines-join_lines_example : dump_lines (codes "ab\n\n") ≡ some (codes "ab" ∷ [] ∷ [])
dump_lines-join_lines_example = dump_lines-join_lines (codes "ab" ∷ [] ∷ []) two_lines-IsLine
