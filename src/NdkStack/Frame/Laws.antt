-- ===== src/NdkStack/Frame/Laws.antt =====
-- What `ParseFrame` of ndk-stack-parser.c makes of a frame's line.
use ndk.Base.{ℕ, ◌≡◌, refl, ap, ◌∙◌, none, some, [], ◌∷◌, ◌++◌, Bytes, take}
use ndk.Base.Checked.{ok, out_of_bounds}
use ndk.NdkStack.Tokens.{get_next_token, find_pc}
use ndk.NdkStack.Tokens.Laws.{Word, Gap, EndsWord, get_next_token-Word, get_next_token-none}
use ndk.NdkStack.Frame.{
  stack_frame, routine, Fopen, opened, opened_as, Symbols, module_name, sym_file, symbolize,
  symbolize_at, printed_first, parse_frame,
}

parse_frame-at :
    (symbols : Symbols) (frame pc : Bytes)
    → find_pc frame ≡ some pc
    → parse_frame symbols frame ≡ printed_first (stack_frame frame) (symbolize_at symbols pc)
unfolding parse_frame
parse_frame-at symbols frame pc e = rw (e, parse_frame) refl

symbolize_at-eq :
    (symbols : Symbols) (pc address wrk path at : Bytes)
    → get_next_token 17 pc ≡ some (address, wrk)
    → get_next_token 2048 wrk ≡ some (path, at)
    → symbolize_at symbols pc
      ≡ ok (symbolize symbols (sym_file symbols.sym_root (module_name path)) address)
unfolding symbolize_at
symbolize_at-eq symbols pc address wrk path at e1 e2 =
    rw (e1, symbolize_at) (rw (e2, symbolize_at) refl)

-- When the instruction pointer token `word` is followed by an address and the path of a module,
-- each behind separators, and the symbol file of that module's name is there, then addr2line is
-- called with the file and the address, as much of both as their buffers hold, and its result is
-- returned.
pub parse_frame-routine :
    (symbols : Symbols) (frame word : Bytes) (d : ℕ) (gap : Bytes) (c : ℕ) (address : Bytes)
    (d' : ℕ) (gap' : Bytes) (c' : ℕ) (path rest : Bytes)
    → find_pc frame
      ≡ some (word ++ ((d ∷ gap) ++ ((c ∷ address) ++ ((d' ∷ gap') ++ ((c' ∷ path) ++ rest)))))
    → Word word
    → Gap (d ∷ gap)
    → Word (c ∷ address)
    → Gap (d' ∷ gap')
    → Word (c' ∷ path)
    → EndsWord rest
    → symbols.fopen (sym_file symbols.sym_root (module_name (take 2047 (c' ∷ path)))) ≡ opened
    → parse_frame symbols frame
      ≡ ok (
        symbols.addr2line_main
            (sym_file symbols.sym_root (module_name (take 2047 (c' ∷ path))))
            (take 16 (c ∷ address)),
        stack_frame frame
            ∷ routine
                (sym_file symbols.sym_root (module_name (take 2047 (c' ∷ path))))
                (take 16 (c ∷ address))
            ∷ [],
      )
parse_frame-routine symbols frame word d gap c address d' gap' c' path rest found w g a g' p e o =
    let file = sym_file symbols.sym_root (module_name (take 2047 (c' ∷ path))) in
    let behind = (d' ∷ gap') ++ ((c' ∷ path) ++ rest) in
    parse_frame-at symbols frame _ found
    ∙ ap (printed_first (stack_frame frame)) (
        symbolize_at-eq symbols (word ++ ((d ∷ gap) ++ ((c ∷ address) ++ behind)))
          (take 16 (c ∷ address)) ((c ∷ address) ++ behind) (take 2047 (c' ∷ path))
          ((c' ∷ path) ++ rest) (get_next_token-Word 17 word d gap c address behind w g a g'.0)
          (get_next_token-Word 2048 (c ∷ address) d' gap' c' path rest a g' p e))
    ∙ ap
        (λ (f : Fopen).
          printed_first (stack_frame frame) (ok (opened_as f symbols file (take 16 (c ∷ address)))))
        o

symbolize_at-none :
    (symbols : Symbols) (pc : Bytes)
    → get_next_token 17 pc ≡ none
    → symbolize_at symbols pc ≡ out_of_bounds
unfolding symbolize_at
symbolize_at-none symbols pc e = rw (e, symbolize_at) refl

-- When an instruction pointer token is found in the frame, and nothing but separators follows
-- it, a buffer that was never set is read, and NULL is searched for the next token.
pub parse_frame-undefined :
    (symbols : Symbols) (frame word gap : Bytes)
    → find_pc frame ≡ some (word ++ gap)
    → Word word
    → Gap gap
    → parse_frame symbols frame ≡ out_of_bounds
parse_frame-undefined symbols frame word gap found w g =
    parse_frame-at symbols frame (word ++ gap) found
    ∙ ap (printed_first (stack_frame frame))
        (symbolize_at-none symbols (word ++ gap) (get_next_token-none 17 word gap w g))
