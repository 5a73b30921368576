-- ===== src/Toolbox/Echo.antt =====
-- What echo_win.c prints.
use ndk.Base.{
  Bool-cases, inl, inr, equal, if◌then◌else◌, ◌≡◌, refl, ap, ◌∙◌, List, [], ◌∷◌, ◌++◌, Bytes, codes,
  append_assoc, append-nil,
}
use ndk.Toolbox.{echo_loop, no_newline, echo}

-- The arguments with a space between each and the next.
abbrev pub join : List Bytes → Bytes
join [] = []
join (arg ∷ []) = arg
join (arg ∷ next ∷ argv) = arg ++ b' ' ∷ join (next ∷ argv)

echo_loop-join :
    (comma arg : Bytes) (argv : List Bytes)
    → echo_loop comma (arg ∷ argv) ≡ comma ++ join (arg ∷ argv)
echo_loop-join comma arg [] = append-nil (comma ++ arg)
echo_loop-join comma arg (next ∷ argv) =
    ap (λ s. (comma ++ arg) ++ s) (echo_loop-join (codes " ") next argv)
    ∙ append_assoc comma arg (b' ' ∷ join (next ∷ argv))

echo_loop-join_nil : (argv : List Bytes) → echo_loop [] argv ≡ join argv
echo_loop-join_nil [] = refl
echo_loop-join_nil (arg ∷ argv) = echo_loop-join [] arg argv

abbrev pub behind_first : List Bytes → List Bytes
behind_first [] = []
behind_first (arg ∷ argv) = argv

-- The arguments are printed with single spaces between them, and a newline, unless the first one is
-- -n: then neither it nor the newline is printed. A later -n is an argument as any other.
pub echo-join :
    (argv : List Bytes)
    → echo argv ≡ (if no_newline argv then join (behind_first argv) else join argv ++ b'\n' ∷ [])
unfolding echo
echo-join [] = refl
echo-join (arg ∷ argv) = elim (Bool-cases (equal arg (codes "-n"))) [
  | inl e ↦ rw (e, echo) (append-nil (echo_loop [] argv) ∙ echo_loop-join_nil argv)
  | inr e ↦ rw (e, echo) (ap (λ s. s ++ b'\n' ∷ []) (echo_loop-join [] arg argv))
]
