-- ===== src/NdkStack/Dumps.antt =====
-- The loop of `main` in ndk-stack.c over the lines of a file with any number of crash dumps.
pub mod Quiet
use ndk.Base.{
  ℕ, ◌+◌, ◌≡◌, refl, ap, sym, ◌∙◌, Bool, true, false, none, List, [], ◌∷◌, ◌++◌, Bytes, drop, inl,
  inr, Bool-cases, Option-cases, if◌then◌else◌, arith,
}
use mathlib.Core.Path.{subst}
use ndk.Base.Checked.{Checked, ok, out_of_bounds, out_of_fuel, ◌>>=◌, >>=-eq-ok, ok-injective}
use ndk.NdkStack.Tokens.{strstr, find_pc, get_next_token}
use ndk.NdkStack.Frame.{
  Output, crash_dump_is_completed, crash_dump, fingerprint, pid_line, signal_line, stack_frame,
  Symbols, Fopen, opened, no_entry, other_error, symbolize_at, printed_first, opened_as,
  parse_frame,
}
use ndk.NdkStack.{
  ParserState, expects_crash_dump, expects_build_fingerprint_or_pid, expects_pid,
  expects_signal_or_frame, expects_frame, Parser, Parsed, re_pid_header, re_sig_header,
  re_frame_header, contains, crash_dump_header, build_fingerprint_header, in_progress, parse_pid,
  parse_fingerprint, parse_frame_line, parse_signal, parse_state, parse_line,
}
use ndk.Base.{All}
use ndk.Base.Checked.{fueled}
use ndk.NdkStack.Main.{dump_lines}
use ndk.NdkStack.Main.Lines.{IsLine, join_lines, dump_lines-join_lines}
use ndk.NdkStack.Dumps.Quiet.{
  is_crash_dump, is_completed, total, total-append, in_dump, begins_dump, dumps_in, WithinResult,
  nothing-Quiet, parse_state-Within,
}

-- The calls of `ParseLine`, with all that they print.
unfoldable pub parse_lines : Parser → ParserState → List Bytes → Checked (ParserState × List Output)
parse_lines parser state [] = ok (state, [])
parse_lines parser state (line ∷ lines) = do
  r ← parse_line parser state line
  (last, printed) ← parse_lines parser r.state lines
  ok (last, r.printed ++ printed)

-- How many dumps have begun, and that all but the one in progress are marked as completed.
pub record Counts (before after : ParserState) (begun : ℕ) (printed : List Output) : Type 0 where
  pub crash_dumps : total is_crash_dump printed ≡ begun
  pub completed : in_dump before + begun ≡ total is_completed printed + in_dump after

abbrev LineResult : ParserState → Bytes → Checked Parsed → Type 0
LineResult state line (ok r) = Counts state r.state (begins_dump line) r.printed
LineResult state line _ = Unit

Within-LineResult :
    (state : ParserState) (line : Bytes) (m : Checked Parsed)
    → begins_dump line ≡ 0
    → WithinResult state m
    → LineResult state line m
Within-LineResult state line (ok r) e w = record {
  crash_dumps = w.quiet.crash_dumps ∙ sym e;
  completed = omega (arith, e, w.quiet.completed, w.stays);
}
Within-LineResult state line out_of_bounds e w = tt
Within-LineResult state line out_of_fuel e w = tt

header-Counts :
    (state : ParserState)
    → Counts state expects_build_fingerprint_or_pid 1 (in_progress state ++ crash_dump ∷ [])
header-Counts expects_crash_dump = record { crash_dumps = refl; completed = refl }
header-Counts _ = record { crash_dumps = refl; completed = refl }

begins_dump-nil : begins_dump [] ≡ 0
unfolding strstr
begins_dump-nil = refl

parse_line-header :
    (parser : Parser) (state : ParserState) (c : ℕ) (line : Bytes)
    → contains (c ∷ line) crash_dump_header ≡ true
    → parse_line parser state (c ∷ line)
      ≡ ok (record {
        returns = 0;
        state = expects_build_fingerprint_or_pid;
        printed = in_progress state ++ crash_dump ∷ [];
      })
unfolding parse_line
parse_line-header parser state c line e = rw (e, parse_line) refl

parse_line-inside :
    (parser : Parser) (state : ParserState) (c : ℕ) (line : Bytes)
    → contains (c ∷ line) crash_dump_header ≡ false
    → parse_line parser state (c ∷ line) ≡ parse_state parser state (c ∷ line)
unfolding parse_line
parse_line-inside parser state c line e = rw (e, parse_line) refl

begins_dump-eq :
    (line : Bytes) (b : Bool)
    → contains line crash_dump_header ≡ b
    → begins_dump line ≡ (if b then 1 else 0)
begins_dump-eq line b e = ap (λ t. if t then 1 else 0) e

parse_line-LineResult :
    (parser : Parser) (state : ParserState) (line : Bytes)
    → LineResult state line (parse_line parser state line)
parse_line-LineResult parser state [] =
    Within-LineResult state [] (parse_line parser state []) begins_dump-nil
      (unfold parse_line in record { quiet = nothing-Quiet; stays = refl })
parse_line-LineResult parser state (c ∷ line) =
    elim (Bool-cases (contains (c ∷ line) crash_dump_header)) [
      | inl e ↦
          subst (LineResult state (c ∷ line)) (sym (parse_line-header parser state c line e)) (
            subst
              (λ n.
                Counts state expects_build_fingerprint_or_pid n
                  (in_progress state ++ crash_dump ∷ []))
              (sym (begins_dump-eq (c ∷ line) true e)) (header-Counts state))
      | inr e ↦
          subst (LineResult state (c ∷ line)) (sym (parse_line-inside parser state c line e)) (
            Within-LineResult state (c ∷ line) (parse_state parser state (c ∷ line))
              (begins_dump-eq (c ∷ line) false e) (parse_state-Within parser state (c ∷ line)))
    ]

LineResult-ok :
    (state : ParserState) (line : Bytes) (m : Checked Parsed) {r : Parsed}
    → m ≡ ok r
    → LineResult state line m
    → Counts state r.state (begins_dump line) r.printed
LineResult-ok state line m e l = subst (LineResult state line) e l

Counts-append :
    {a b c : ParserState} {m n : ℕ} (xs ys : List Output)
    → Counts a b m xs
    → Counts b c n ys
    → Counts a c (m + n) (xs ++ ys)
Counts-append xs ys p q = record {
  crash_dumps = omega (arith, total-append is_crash_dump xs ys, p.crash_dumps, q.crash_dumps);
  completed = omega (arith, total-append is_completed xs ys, p.completed, q.completed);
}

-- When the lines of a file are parsed, from any state of the parser on, as many crash dumps are
-- announced as there are lines with the header, and each dump but the one in progress at the end is
-- marked as completed.
pub parse_lines-Counts :
    (parser : Parser) (state last : ParserState) (lines : List Bytes) (printed : List Output)
    → parse_lines parser state lines ≡ ok (last, printed)
    → Counts state last (dumps_in lines) printed
unfolding parse_lines
parse_lines-Counts parser state last [] printed e =
    let same_pair = ok-injective e in
    subst (λ (p : ParserState × List Output). Counts state p.0 0 p.1) same_pair
      (record { crash_dumps = refl; completed = omega arith })
parse_lines-Counts parser state last (line ∷ lines) printed e =
    let (r, e1, h1) = >>=-eq-ok (parse_line parser state line) _ e in
    let ((last', later), e2, h2) = >>=-eq-ok (parse_lines parser r.state lines) _ h1 in
    subst (λ (p : ParserState × List Output). Counts state p.0 (dumps_in (line ∷ lines)) p.1)
      (ok-injective h2)
      (Counts-append r.printed later
        (LineResult-ok state line (parse_line parser state line) e1
          (parse_line-LineResult parser state line))
        (parse_lines-Counts parser r.state last' lines later e2))

-- The whole loop of `main`, over the bytes of the file.
unfoldable pub parse_file : Parser → Bytes → Checked (ParserState × List Output)
parse_file parser file = do
  lines ← fueled (dump_lines file)
  parse_lines parser expects_crash_dump lines
