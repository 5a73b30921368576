-- ===== src/Gestures/Taps.antt =====
-- What the double tap detector of gestureDetector.cpp reports for two touches with one finger.
use ndk.Base.{
  ℕ, ◌-◌, ◌&&◌, Bool, true, List, [], ◌∷◌, ◌++◌, length, All, ltb, leb, ◌==◌, if◌then◌else◌, ◌≡◌,
  Bool-cases, inl, inr,
}
use ndk.Base.Checked.{ok}
use ndk.Gestures.{
  Floats, Pointer, Event, flags, tap_timeout, double_tap_timeout, double_tap_slop, touch_slop,
  is_near, TapDetector, tap_detect, DoubletapDetector, doubletap_detect, place_of,
}
use ndk.Gestures.Touches.{detect_all}
use ndk.Gestures.State

module _ (floats : Floats) where
  open floats use {F}

  -- The finger was lifted early enough, as the pointer that came down and near its place.
  abbrev pub is_tap : TapDetector floats → Pointer F → Event F → Pointer F → Bool
  is_tap t p up q =
      leb (up.event_time - up.down_time) tap_timeout
      && (p.id == q.id && is_near floats touch_slop t.dp_factor (place_of q) (place_of p))

  -- The finger comes down soon behind the last tap, and near its place.
  abbrev pub is_second : DoubletapDetector floats → Event F → Pointer F → Bool
  is_second d e p =
      leb (e.event_time - d.last_tap_time) double_tap_timeout
      && is_near floats double_tap_slop d.dp_factor (place_of p) d.last_tap_place

  abbrev pub with_down : Pointer F → TapDetector floats → TapDetector floats
  with_down p t = record t { down_pointer_id = p.id; down_place = place_of p }

  -- The detector behind a touch that may have been a tap.
  abbrev pub remembered :
      Bool → Event F → Pointer F → DoubletapDetector floats → DoubletapDetector floats
  remembered tap up q d =
      if tap then record d { last_tap_time = up.event_time; last_tap_place = place_of q } else d

  tap_detect-down :
      (t : TapDetector floats) (e : Event F) (p : Pointer F)
      → flags F e ≡ 0
      → e.pointers ≡ p ∷ []
      → tap_detect floats t e ≡ ok (State.none, with_down p t)
  unfolding tap_detect
  tap_detect-down t e p f h = rw (h, f)

  tap_detect-moved :
      (t : TapDetector floats) (e : Event F)
      → flags F e ≡ 2
      → tap_detect floats t e ≡ ok (State.none, t)
  unfolding tap_detect
  tap_detect-moved t e f = elim (Bool-cases (ltb 1 (length e.pointers))) [
    | inl many ↦ rw many
    | inr one ↦ rw (one, f)
  ]

  tap_detect-up :
      (t : TapDetector floats) (e : Event F) (p q : Pointer F)
      → flags F e ≡ 1
      → e.pointers ≡ q ∷ []
      → tap_detect floats (with_down p t) e
        ≡ ok (if is_tap t p e q then State.action else State.none, with_down p t)
  unfolding tap_detect
  tap_detect-up t e p q f h = elim (Bool-cases (leb (e.event_time - e.down_time) tap_timeout)) [
    | inl soon ↦ rw (h, f, soon)
    | inr late ↦ rw (h, f, late)
  ]

  doubletap_detect-down :
      (d : DoubletapDetector floats) (e : Event F) (p : Pointer F)
      → flags F e ≡ 0
      → e.pointers ≡ p ∷ []
      → doubletap_detect floats d e
        ≡ ok (
          if is_second d e p then State.action else State.none,
          record d { tap_detector = with_down p d.tap_detector },
        )
  unfolding doubletap_detect
  doubletap_detect-down d e p f h =
      rw (tap_detect-down d.tap_detector e p f h, h, f)
        (elim (Bool-cases (leb (e.event_time - d.last_tap_time) double_tap_timeout)) [
          | inl soon ↦ rw soon
          | inr late ↦ rw late
        ])

  doubletap_detect-moved :
      (d : DoubletapDetector floats) (e : Event F)
      → flags F e ≡ 2
      → doubletap_detect floats d e ≡ ok (State.none, d)
  unfolding doubletap_detect
  doubletap_detect-moved d e f = elim (Bool-cases (ltb 1 (length e.pointers))) [
    | inl many ↦ rw many
    | inr one ↦ rw (one, tap_detect-moved d.tap_detector e f, f)
  ]

  doubletap_detect-up :
      (d : DoubletapDetector floats) (t : TapDetector floats) (e : Event F) (p q : Pointer F)
      → flags F e ≡ 1
      → e.pointers ≡ q ∷ []
      → doubletap_detect floats (record d { tap_detector = with_down p t }) e
        ≡ ok (
          State.none,
          remembered (is_tap t p e q) e q (record d { tap_detector = with_down p t }),
        )
  unfolding doubletap_detect
  doubletap_detect-up d t e p q f h =
      rw (tap_detect-up t e p q f h, h, f)
        (elim (Bool-cases (is_tap t p e q)) [ inl tap ↦ rw tap | inr other ↦ rw other ])

  abbrev pub nones : List (Event F) → List ℕ
  nones [] = []
  nones (e ∷ es) = State.none ∷ nones es

  detect_all-moves :
      (d : DoubletapDetector floats) (moves es : List (Event F))
      {result : List ℕ × DoubletapDetector floats}
      → All (λ e. flags F e ≡ 2) moves
      → detect_all (doubletap_detect floats) d es ≡ ok result
      → detect_all (doubletap_detect floats) d (moves ++ es)
        ≡ ok (nones moves ++ result.0, result.1)
  detect_all-moves d [] es h e = e
  detect_all-moves d (e ∷ moves) es h r =
      rw (doubletap_detect-moved d e h.0, detect_all-moves d moves es h.1 r)

  -- The touch from its lift on, and the finger that comes down behind it.
  doubletap_detect-lifted :
      (d : DoubletapDetector floats) (up again : Event F) (p q r : Pointer F)
      → flags F up ≡ 1
      → up.pointers ≡ q ∷ []
      → flags F again ≡ 0
      → again.pointers ≡ r ∷ []
      → (let tap = remembered (is_tap d.tap_detector p up q) up q d in
          detect_all
            (doubletap_detect floats)
            (record d { tap_detector = with_down p d.tap_detector })
            (up ∷ again ∷ [])
          ≡ ok (
            State.none ∷ (if is_second tap again r then State.action else State.none) ∷ [],
            record tap { tap_detector = with_down r d.tap_detector },
          ))
  doubletap_detect-lifted d up again p q r f2 h2 f3 h3 =
      let touched : DoubletapDetector floats = record d {
        tap_detector = with_down p d.tap_detector;
      } in
      rw (doubletap_detect-up d d.tap_detector up p q f2 h2)
        (elim (Bool-cases (is_tap d.tap_detector p up q)) [
          | inl tap ↦ rw (tap, doubletap_detect-down (remembered true up q touched) again r f3 h3)
          | inr other ↦ rw (other, doubletap_detect-down touched again r f3 h3)
        ])

  -- Let a finger come down, move any number of times and be lifted, and then one come down again,
  -- each time with no other finger. From any state of the double tap detector: a second tap is
  -- reported at the first event when it is soon behind the last tap before it and near its place;
  -- nothing is reported for the moves and at the lift; and a second tap is reported at the last
  -- event when it is soon behind the last tap and near its place, where the touch just made is the
  -- last tap if it was a tap: short, with one pointer, and lifted near where it came down. The
  -- detector then holds that last tap and the finger that is down.
  pub doubletap_detect-second :
      (d : DoubletapDetector floats) (down up again : Event F) (moves : List (Event F))
      (p q r : Pointer F)
      → flags F down ≡ 0
      → down.pointers ≡ p ∷ []
      → All (λ e. flags F e ≡ 2) moves
      → flags F up ≡ 1
      → up.pointers ≡ q ∷ []
      → flags F again ≡ 0
      → again.pointers ≡ r ∷ []
      → (let tap = remembered (is_tap d.tap_detector p up q) up q d in
          detect_all (doubletap_detect floats) d (down ∷ (moves ++ up ∷ again ∷ []))
          ≡ ok (
            (if is_second d down p then State.action else State.none)
                ∷ (nones moves
                    ++ State.none
                      ∷ (if is_second tap again r then State.action else State.none)
                      ∷ []),
            record tap { tap_detector = with_down r d.tap_detector },
          ))
  doubletap_detect-second d down up again moves p q r f1 h1 all f2 h2 f3 h3 = rw (
    doubletap_detect-down d down p f1 h1,
    detect_all-moves (record d { tap_detector = with_down p d.tap_detector }) moves
        (up ∷ again ∷ []) all (doubletap_detect-lifted d up again p q r f2 h2 f3 h3),
  )
