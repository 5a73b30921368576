-- ===== src/Gestures/Touches.antt =====
-- What the pinch and the drag detector of gestureDetector.cpp report for the fingers on a screen.
use ndk.Base.{
  ℕ, suc, ◌<◌, ◌&&◌, true, false, some, List, [], ◌∷◌, ◌++◌, length, length-append, All, ltb, leb,
  ◌==◌, not, if◌then◌else◌, ◌≡◌, refl, arith,
}
use ndk.Base.Checked.{Checked, ok, ◌>>=◌}
use ndk.Gestures.{
  Pointer, Event, Detector, get_elem?, flags, pointer_index, pop_back, release_loop, pinch_detect,
  drag_detect,
}
use ndk.Gestures.State

-- The loop stops at the finger that is lifted, and leaves the others in their order.
release_loop-released :
    (before after : List ℕ) (id : ℕ)
    → All (λ other. (other == id) ≡ false) before
    → release_loop id (before ++ id ∷ after) ≡ (length before, before ++ after)
unfolding release_loop
release_loop-released [] after id h = let e : (id == id) ≡ true = ground arith in rw e
release_loop-released (other ∷ before) after id h =
    rw (release_loop-released before after id h.1, h.0)

module _ {F : Type 0} where
  -- How an event changes the fingers that are down, in the order in which they came down: the first
  -- one, another one, a move, one of several that is lifted, the last one.
  pub data Touch : List ℕ → Event F → List ℕ → Type 0 where
    first :
        (p : Pointer F) (e : Event F) → flags F e ≡ 0 → e.pointers ≡ p ∷ [] → Touch [] e (p.id ∷ [])
    another :
        (down : List ℕ) (p : Pointer F) (e : Event F)
        → flags F e ≡ 5
        → get_elem? e.pointers (pointer_index F e) ≡ some p
        → length e.pointers ≡ suc (length down)
        → Touch down e (down ++ p.id ∷ [])
    moved :
        (down : List ℕ) (e : Event F)
        → flags F e ≡ 2
        → 0 < length down
        → length e.pointers ≡ length down
        → Touch down e down
    released :
        (before after : List ℕ) (p : Pointer F) (e : Event F)
        → flags F e ≡ 6
        → get_elem? e.pointers (pointer_index F e) ≡ some p
        → All (λ id. (id == p.id) ≡ false) before
        → 0 < length (before ++ after)
        → length e.pointers ≡ suc (length (before ++ after))
        → Touch (before ++ p.id ∷ after) e (before ++ after)
    last :
        (p : Pointer F) (e : Event F) → flags F e ≡ 1 → e.pointers ≡ p ∷ [] → Touch (p.id ∷ []) e []

  -- A pinch starts with the second finger, moves with two or more, and starts anew where one of the
  -- first two of three or more is lifted.
  abbrev pub pinch_of : {down down' : List ℕ} {e : Event F} → Touch down e down' → ℕ
  pinch_of (first p e f h) = State.none
  pinch_of (another down p e f h n) = if length down == 1 then State.start else State.none
  pinch_of (moved down e f h n) = if length down == 1 then State.none else State.move
  pinch_of (released before after p e f h a b n) =
      if leb (length before) 1 && ltb 1 (length (before ++ after)) then State.action else State.none
  pinch_of (last p e f h) = State.none

  -- A drag starts with the first finger, moves with one, starts anew where one of two is lifted,
  -- and ends with the last one.
  abbrev pub drag_of : {down down' : List ℕ} {e : Event F} → Touch down e down' → ℕ
  drag_of (first p e f h) = State.start
  drag_of (another down p e f h n) = State.none
  drag_of (moved down e f h n) = if length down == 1 then State.move else State.none
  drag_of (released before after p e f h a b n) =
      if length (before ++ after) == 1 then State.start else State.none
  drag_of (last p e f h) = State.finished

  pinch_detect-Touch :
      {down down' : List ℕ} {e : Event F} (touch : Touch down e down') (old : Event F)
      → pinch_detect (record { vec_pointers = down; event = old }) e
        ≡ ok (pinch_of touch, record { vec_pointers = down'; event = e })
  unfolding pinch_detect pop_back
  pinch_detect-Touch (first p e f h) old = rw (f, h)
  pinch_detect-Touch (another down p e f h n) old =
      let c : (suc (length down) == 2) ≡ (length down == 1) = ground arith in rw (f, h, n, c)
  pinch_detect-Touch (moved down e f h n) old = rw (f, n)
  pinch_detect-Touch (released before after p e f h a b n) old =
      let c : not (suc (length (before ++ after)) == 2) ≡ ltb 1 (length (before ++ after)) =
        ground arith in
      rw (f, h, n, release_loop-released before after p.id a, c)
  pinch_detect-Touch (last p e f h) old = rw (f, h)

  drag_detect-Touch :
      {down down' : List ℕ} {e : Event F} (touch : Touch down e down') (old : Event F)
      → drag_detect (record { vec_pointers = down; event = old }) e
        ≡ ok (drag_of touch, record { vec_pointers = down'; event = e })
  unfolding drag_detect pop_back
  drag_detect-Touch (first p e f h) old = rw (f, h)
  drag_detect-Touch (another down p e f h n) old = rw (f, h)
  drag_detect-Touch (moved down e f h n) old = rw (f, n)
  drag_detect-Touch (released before after p e f h a b n) old =
      let c : leb (length before) 1 && suc (length (before ++ after)) == 2
          ≡ (length (before ++ after) == 1) =
        ground (arith, length-append before after) in
      rw (f, h, n, release_loop-released before after p.id a, c)
  drag_detect-Touch (last p e f h) old = rw (f, h)

  -- A row of events, each of which changes the fingers as the one before it left them.
  pub data Touches : List ℕ → List (Event F) → List ℕ → Type 0 where
    done : (down : List ℕ) → Touches down [] down
    next :
        {down mid down' : List ℕ} {e : Event F} {es : List (Event F)}
        → Touch down e mid
        → Touches mid es down'
        → Touches down (e ∷ es) down'

  -- What a detector reports for a row of events.
  abbrev pub detect_all {ℓ} :
      {D : Type ℓ} → (D → Event F → Checked (ℕ × D)) → D → List (Event F) → Checked (List ℕ × D)
  detect_all detect d [] = ok ([], d)
  detect_all detect d (e ∷ es) = detect d e >>= λ (report, d').
      detect_all detect d' es >>= λ (reports, d''). ok (report ∷ reports, d'')

  abbrev pub last_event : Event F → List (Event F) → Event F
  last_event old [] = old
  last_event old (e ∷ es) = last_event e es

  abbrev pub reports :
      {down down' : List ℕ} {es : List (Event F)}
      → ((down down' : List ℕ) (e : Event F) → Touch down e down' → ℕ)
      → Touches down es down'
      → List ℕ
  reports report (done down) = []
  reports report (next {down} {mid} {e} touch touches) =
      report down mid e touch ∷ reports report touches

  detect_all-Touches :
      {down down' : List ℕ} {es : List (Event F)}
      (detect : Detector F → Event F → Checked (ℕ × Detector F))
      (report : (down down' : List ℕ) (e : Event F) → Touch down e down' → ℕ)
      → ((down down' : List ℕ) (e : Event F) (touch : Touch down e down') (old : Event F)
          → detect (record { vec_pointers = down; event = old }) e
            ≡ ok (report down down' e touch, record { vec_pointers = down'; event = e }))
      → (touches : Touches down es down') (old : Event F)
      → detect_all detect (record { vec_pointers = down; event = old }) es
        ≡ ok (reports report touches, record { vec_pointers = down'; event = last_event old es })
  detect_all-Touches detect report each (done down) old = refl
  detect_all-Touches detect report each (next {down} {mid} {e} touch touches) old =
      rw (each down mid e touch old, detect_all-Touches detect report each touches e)

  -- Let each event of a row be of one finger that comes down or is lifted, or of a move. Both
  -- detectors, from the fingers that are down before it, never look for a pointer that is not
  -- there, have in `vec_pointers_` the ids of the fingers that are down, in the order in which they
  -- came down, and report for each event the gesture of `pinch_of` and of `drag_of`: a pinch starts
  -- with the second finger, moves with two or more, and ends and starts anew where one of the first
  -- two is lifted and two or more are left; a drag starts with the first finger and where one of
  -- two is lifted, moves with one, and ends with the last. Nothing else is reported.
  pub detectors-Touches :
      {down down' : List ℕ} {es : List (Event F)} (touches : Touches down es down') (old : Event F)
      → (detect_all pinch_detect (record { vec_pointers = down; event = old }) es
          ≡ ok (
            reports (λ a b e. pinch_of) touches,
            record { vec_pointers = down'; event = last_event old es },
          ))
        × (detect_all drag_detect (record { vec_pointers = down; event = old }) es
            ≡ ok (
              reports (λ a b e. drag_of) touches,
              record { vec_pointers = down'; event = last_event old es },
            ))
  detectors-Touches touches old = (
    detect_all-Touches pinch_detect (λ a b e. pinch_of) (λ a b e. pinch_detect-Touch) touches old,
    detect_all-Touches drag_detect (λ a b e. drag_of) (λ a b e. drag_detect-Touch) touches old,
  )
