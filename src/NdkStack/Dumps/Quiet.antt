-- ===== src/NdkStack/Dumps/Quiet.antt =====
-- What ParseLine of ndk-stack-parser.c prints inside a crash dump neither begins nor ends one.
use ndk.Base.{
  ℕ, ◌+◌, ◌≡◌, refl, ◌∙◌, Bool, true, false, none, List, [], ◌∷◌, ◌++◌, Bytes, drop, inl, inr,
  Option-cases, if◌then◌else◌, arith,
}
use ndk.Base.Checked.{Checked, ok, out_of_bounds, out_of_fuel, ◌>>=◌}
use ndk.NdkStack.Tokens.{strstr, find_pc, get_next_token}
use ndk.NdkStack.Frame.{
  Output, crash_dump_is_completed, crash_dump, fingerprint, pid_line, signal_line, stack_frame,
  Symbols, Fopen, opened, no_entry, other_error, symbolize_at, printed_first, opened_as,
  parse_frame,
}
use ndk.NdkStack.{
  ParserState, expects_crash_dump, expects_build_fingerprint_or_pid, expects_pid,
  expects_signal_or_frame, expects_frame, Parser, Parsed, re_pid_header, re_sig_header,
  re_frame_header, contains, crash_dump_header, build_fingerprint_header, parse_pid,
  parse_fingerprint, parse_frame_line, parse_signal, parse_state,
}

abbrev pub is_crash_dump : Output → ℕ
is_crash_dump crash_dump = 1
is_crash_dump _ = 0

abbrev pub is_completed : Output → ℕ
is_completed crash_dump_is_completed = 1
is_completed _ = 0

abbrev pub total : (Output → ℕ) → List Output → ℕ
total f [] = 0
total f (o ∷ os) = f o + total f os

pub total-append :
    (f : Output → ℕ) (xs ys : List Output) → total f (xs ++ ys) ≡ total f xs + total f ys
total-append f [] ys = omega arith
total-append f (x ∷ xs) ys = omega (arith, total-append f xs ys)

-- 1 while a dump is in progress.
abbrev pub in_dump : ParserState → ℕ
in_dump expects_crash_dump = 0
in_dump _ = 1

abbrev pub begins_dump : Bytes → ℕ
begins_dump line = if contains line crash_dump_header then 1 else 0

abbrev pub dumps_in : List Bytes → ℕ
dumps_in [] = 0
dumps_in (line ∷ lines) = begins_dump line + dumps_in lines

-- No dump begins or ends.
pub record Quiet (printed : List Output) : Type 0 where
  pub crash_dumps : total is_crash_dump printed ≡ 0
  pub completed : total is_completed printed ≡ 0

abbrev QuietResult : Checked (ℕ × List Output) → Type 0
QuietResult (ok (_, printed)) = Quiet printed
QuietResult _ = Unit

Quiet-append : (xs ys : List Output) → Quiet xs → Quiet ys → Quiet (xs ++ ys)
Quiet-append xs ys q r = record {
  crash_dumps = omega (arith, total-append is_crash_dump xs ys, q.crash_dumps, r.crash_dumps);
  completed = omega (arith, total-append is_completed xs ys, q.completed, r.completed);
}

opened_as-Quiet :
    (f : Fopen) (symbols : Symbols) (file pc : Bytes) → Quiet (opened_as f symbols file pc).1
opened_as-Quiet no_entry symbols file pc = record { crash_dumps = refl; completed = refl }
opened_as-Quiet other_error symbols file pc = record { crash_dumps = refl; completed = refl }
opened_as-Quiet opened symbols file pc = record { crash_dumps = refl; completed = refl }

symbolize_at-QuietResult : (symbols : Symbols) (pc : Bytes) → QuietResult (symbolize_at symbols pc)
unfolding symbolize_at
symbolize_at-QuietResult symbols pc = elim (Option-cases (get_next_token 17 pc)) [
  | inl e ↦ rw (e, QuietResult, symbolize_at) tt
  | inr ((pc_address, wrk), e) ↦ elim (Option-cases (get_next_token 2048 wrk)) [
    | inl e' ↦ rw (e, QuietResult, symbolize_at) (rw (e', QuietResult) tt)
    | inr ((module_path, at), e') ↦
        rw (e, QuietResult, symbolize_at)
          (rw (e', QuietResult) (opened_as-Quiet _ symbols _ pc_address))
  ]
]

stack_frame-Quiet :
    (frame : Bytes) (lines : List Output) → Quiet lines → Quiet (stack_frame frame ∷ lines)
stack_frame-Quiet frame lines q = record {
  crash_dumps = omega (arith, q.crash_dumps);
  completed = omega (arith, q.completed);
}

printed_first-QuietResult :
    (frame : Bytes) (r : Checked (ℕ × List Output))
    → QuietResult r
    → QuietResult (printed_first (stack_frame frame) r)
printed_first-QuietResult frame (ok (code, lines)) q = stack_frame-Quiet frame lines q
printed_first-QuietResult frame out_of_bounds q = tt
printed_first-QuietResult frame out_of_fuel q = tt

parse_frame-QuietResult :
    (symbols : Symbols) (frame : Bytes) → QuietResult (parse_frame symbols frame)
unfolding parse_frame
parse_frame-QuietResult symbols frame = elim (Option-cases (find_pc frame)) [
  | inl e ↦ rw e (record { crash_dumps = refl; completed = refl })
  | inr (pc, e) ↦ rw e (
      printed_first-QuietResult frame (symbolize_at symbols pc)
        (symbolize_at-QuietResult symbols pc))
]

-- A line inside the dump that is in progress, or outside of all.
pub record Within (state : ParserState) (r : Parsed) : Type 0 where
  pub quiet : Quiet r.printed
  pub stays : in_dump r.state ≡ in_dump state

abbrev pub WithinResult : ParserState → Checked Parsed → Type 0
WithinResult state (ok r) = Within state r
WithinResult state _ = Unit

parse_pid-Within :
    (parser : Parser) (line : Bytes) (found : Bool) (state : ParserState) (printed : List Output)
    → Quiet printed
    → in_dump state ≡ 1
    → Within expects_pid (parse_pid parser line found state printed)
unfolding parse_pid
parse_pid-Within parser line found state printed q e =
    elim (Option-cases (parser.match_regex re_pid_header line)) [
      | inl no_match ↦ rw (no_match, parse_pid) (record { quiet = q; stays = e })
      | inr (so, match) ↦
          rw (match, parse_pid)
            (record {
              quiet =
                  Quiet-append printed (pid_line (drop so line) ∷ []) q
                    (record { crash_dumps = refl; completed = refl });
              stays = refl;
            })
    ]

frame-Within :
    (printed : List Output) (m : Checked (ℕ × List Output))
    → Quiet printed
    → QuietResult m
    → WithinResult expects_frame (
        m >>= λ (code, lines).
        ok (record { returns = code; state = expects_frame; printed = printed ++ lines }))
frame-Within printed (ok (code, lines)) q r = record {
  quiet = Quiet-append printed lines q r;
  stays = refl;
}
frame-Within printed out_of_bounds q r = tt
frame-Within printed out_of_fuel q r = tt

parse_frame_line-Within :
    (parser : Parser) (line : Bytes) (found : Bool) (state : ParserState) (printed : List Output)
    → Quiet printed
    → in_dump state ≡ 1
    → WithinResult expects_frame (parse_frame_line parser line found state printed)
unfolding parse_frame_line
parse_frame_line-Within parser line found state printed q e =
    elim (Option-cases (parser.match_regex re_frame_header line)) [
      | inl no_match ↦
          rw (no_match, WithinResult, parse_frame_line) (record { quiet = q; stays = e })
      | inr (so, match) ↦ elim (Option-cases (find_pc line)) [
        | inl no_pc ↦
            rw (match, WithinResult, parse_frame_line)
              (rw (no_pc, WithinResult) (record { quiet = q; stays = e }))
        | inr (pc, found_pc) ↦
            rw (match, WithinResult, parse_frame_line)
              (rw (found_pc, WithinResult)
                (frame-Within printed (parse_frame parser.symbols (drop so line)) q
                  (parse_frame-QuietResult parser.symbols (drop so line))))
      ]
    ]

pub nothing-Quiet : Quiet []
nothing-Quiet = record { crash_dumps = refl; completed = refl }

parse_signal-Within :
    (parser : Parser) (line : Bytes) → WithinResult expects_frame (parse_signal parser line)
unfolding parse_signal
parse_signal-Within parser line = elim (Option-cases (parser.match_regex re_sig_header line)) [
  | inl no_match ↦
      rw (no_match, WithinResult, parse_signal)
        (parse_frame_line-Within parser line false expects_signal_or_frame [] nothing-Quiet refl)
  | inr (so, match) ↦
      rw (match, WithinResult, parse_signal)
        (parse_frame_line-Within parser line true expects_frame (signal_line (drop so line) ∷ [])
          (record { crash_dumps = refl; completed = refl }) refl)
]

parse_fingerprint-Within :
    (parser : Parser) (line : Bytes) → Within expects_pid (parse_fingerprint parser line)
unfolding parse_fingerprint
parse_fingerprint-Within parser line =
    elim (Option-cases (strstr none line build_fingerprint_header)) [
      | inl none_there ↦
          rw (none_there, parse_fingerprint)
            (parse_pid-Within parser line false expects_build_fingerprint_or_pid [] nothing-Quiet
              refl)
      | inr ((before, rest), e) ↦
          rw (e, parse_fingerprint)
            (parse_pid-Within parser line true expects_pid (fingerprint rest ∷ [])
              (record { crash_dumps = refl; completed = refl }) refl)
    ]

Within-stays :
    (state state' : ParserState) (m : Checked Parsed)
    → in_dump state ≡ in_dump state'
    → WithinResult state m
    → WithinResult state' m
Within-stays state state' (ok r) e w = record { quiet = w.quiet; stays = w.stays ∙ e }
Within-stays state state' out_of_bounds e w = tt
Within-stays state state' out_of_fuel e w = tt

pub parse_state-Within :
    (parser : Parser) (state : ParserState) (line : Bytes)
    → WithinResult state (parse_state parser state line)
unfolding parse_state
parse_state-Within parser expects_crash_dump line = record { quiet = nothing-Quiet; stays = refl }
parse_state-Within parser expects_build_fingerprint_or_pid line =
    Within-stays expects_pid expects_build_fingerprint_or_pid (ok (parse_fingerprint parser line))
      refl (parse_fingerprint-Within parser line)
parse_state-Within parser expects_pid line =
    parse_pid-Within parser line false expects_pid [] nothing-Quiet refl
parse_state-Within parser expects_signal_or_frame line =
    Within-stays expects_frame expects_signal_or_frame (parse_signal parser line) refl
      (parse_signal-Within parser line)
parse_state-Within parser expects_frame line =
    parse_frame_line-Within parser line false expects_frame [] nothing-Quiet refl
