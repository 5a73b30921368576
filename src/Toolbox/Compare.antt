-- ===== src/Toolbox/Compare.antt =====
-- The loop of cmp_win.c decides whether two files are equal.
use ndk.Base.{
  ℕ, zero, suc, ◌≤◌, ◌<◌, ◌≡◌, refl, ap, sym, ◌∙◌, true, false, not, some, [], ◌∷◌, ◌++◌, Bytes,
  length, take, drop, length-drop, equal, equal→eq, equal_refl, ==_refl, ◌==◌, Bool-cases, inl, inr,
  arith,
}
use ndk.Toolbox.{bufsize, differ, compare_loop, compare_files}

take-drop : (n : ℕ) (xs : Bytes) → take n xs ++ drop n xs ≡ xs
take-drop zero xs = refl
take-drop (suc n) [] = refl
take-drop (suc n) (x ∷ xs) = ap (◌∷◌ x) (take-drop n xs)

drop-short : (n : ℕ) (xs : Bytes) → (length (take n xs) == n) ≡ false → drop n xs ≡ []
drop-short zero xs h = ground arith
drop-short (suc n) [] h = refl
drop-short (suc n) (x ∷ xs) h = drop-short n xs (ground arith)

equal-append : (a x y : Bytes) → equal (a ++ x) (a ++ y) ≡ equal x y
equal-append [] x y = refl
equal-append (c ∷ a) x y = rw (==_refl c) (equal-append a x y)

-- Files with the same first buffer are equal when the rests are.
equal-rest :
    (n : ℕ) (f1 f2 : Bytes) → take n f1 ≡ take n f2 → equal f1 f2 ≡ equal (drop n f1) (drop n f2)
equal-rest n f1 f2 e =
    ap (λ x. equal x f2) (sym (take-drop n f1))
    ∙ ap (λ y. equal (take n f1 ++ drop n f1) y) (sym (take-drop n f2))
    ∙ ap (λ t. equal (take n f1 ++ drop n f1) (t ++ drop n f2)) (sym e)
    ∙ equal-append (take n f1) (drop n f1) (drop n f2)

differ-same : (b1 b2 : Bytes) → equal b1 b2 ≡ true → differ b1 b2 ≡ false
differ-same b1 b2 e = ground (arith, ap length (equal→eq b1 b2 e))

differ-other : (b1 b2 : Bytes) → equal b1 b2 ≡ false → differ b1 b2 ≡ true
differ-other b1 b2 e = ground arith

equal-other : (n : ℕ) (f1 f2 : Bytes) → equal (take n f1) (take n f2) ≡ false → equal f1 f2 ≡ false
equal-other n f1 f2 h = elim (Bool-cases (equal f1 f2)) [
  | inr e ↦ e
  | inl e ↦
      ground
        (arith, ap (λ y. equal (take n f1) (take n y)) (equal→eq f1 f2 e), equal_refl (take n f1))
]

compare_loop-differ :
    (size f : ℕ) (f1 f2 : Bytes)
    → differ (take size f1) (take size f2) ≡ true
    → compare_loop size (suc f) f1 f2 ≡ some true
unfolding compare_loop
compare_loop-differ size f f1 f2 d = rw (d, compare_loop) refl

compare_loop-full :
    (size f : ℕ) (f1 f2 : Bytes)
    → differ (take size f1) (take size f2) ≡ false
    → (length (take size f1) == size) ≡ true
    → compare_loop size (suc f) f1 f2 ≡ compare_loop size f (drop size f1) (drop size f2)
unfolding compare_loop
compare_loop-full size f f1 f2 d n = rw (d, compare_loop) (rw n refl)

compare_loop-end :
    (size f : ℕ) (f1 f2 : Bytes)
    → differ (take size f1) (take size f2) ≡ false
    → (length (take size f1) == size) ≡ false
    → compare_loop size (suc f) f1 f2 ≡ some false
unfolding compare_loop
compare_loop-end size f f1 f2 d n = rw (d, compare_loop) (rw n refl)

length-take-full : (n : ℕ) (xs : Bytes) → (length (take n xs) == n) ≡ true → n ≤ length xs
length-take-full zero xs h = omega arith
length-take-full (suc n) [] h = ground arith
length-take-full (suc n) (x ∷ xs) h = omega (arith, length-take-full n xs (ground arith))

compare_loop-equal :
    (size f : ℕ) (f1 f2 : Bytes)
    → 0 < size
    → length f1 < f
    → compare_loop size f f1 f2 ≡ some (not (equal f1 f2))
compare_loop-equal size zero f1 f2 pos h = absurd (omega arith)
compare_loop-equal size (suc f) f1 f2 pos h =
    elim (Bool-cases (equal (take size f1) (take size f2))) [
      | inr e ↦
          compare_loop-differ size f f1 f2 (differ-other (take size f1) (take size f2) e)
          ∙ ap (λ b. some (not b)) (sym (equal-other size f1 f2 e))
      | inl e ↦
          let same = equal→eq (take size f1) (take size f2) e in
          let d = differ-same (take size f1) (take size f2) e in
          let rest = ap (λ b. some (not b)) (sym (equal-rest size f1 f2 same)) in
          elim (Bool-cases (length (take size f1) == size)) [
            | inl full ↦
                compare_loop-full size f f1 f2 d full
                ∙ compare_loop-equal size f (drop size f1) (drop size f2) pos
                    (omega (arith, length-drop size f1, length-take-full size f1 full))
                ∙ rest
            | inr short ↦
                compare_loop-end size f f1 f2 d short
                ∙ ap (λ (p : Bytes). some (not (equal p []))) (sym (drop-short size f1 short))
                ∙ ap (λ (p : Bytes). some (not (equal (drop size f1) p)))
                    (sym (drop-short size f2 (ap (λ t. length t == size) (sym same) ∙ short)))
                ∙ rest
          ]
    ]

-- The loop ends, with status 0 exactly when the files hold the same bytes, and status 1 otherwise.
pub compare_files-equal : (f1 f2 : Bytes) → compare_files f1 f2 ≡ some (not (equal f1 f2))
unfolding compare_files
compare_files-equal f1 f2 =
    compare_loop-equal bufsize (suc (length f1)) f1 f2 (omega arith) (omega arith)
