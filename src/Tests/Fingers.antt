-- ===== src/Tests/Fingers.antt =====
-- Uses of the theorems on gestureDetector.cpp. A place is a number here, in place of a float.
use ndk.Base.{ℕ, ◌+◌, ◌-◌, ◌*◌, ◌/◌, ◌≡◌, refl, List, [], ◌∷◌, ltb, arith}
use ndk.Base.Checked.{ok}
use ndk.Gestures.{
  Floats, Pointer, Event, is_near, pinch_detect, drag_detect, TapDetector, DoubletapDetector,
  doubletap_detect,
}
use ndk.Gestures.Touches.{
  Touches, first, another, moved, released, last, done, next, detect_all, detectors-Touches,
}
use ndk.Gestures.Taps.{doubletap_detect-second}

abbrev finger : ℕ → Pointer ℕ
finger id = record { id = id; x = 10 * id; y = 0 }

abbrev event : ℕ → List (Pointer ℕ) → Event ℕ
event action pointers = record {
  action = action;
  pointers = pointers;
  event_time = 0;
  down_time = 0;
}

-- The fingers 0, 1 and 2 come down and move, and 0, 2 and 1 are lifted.
abbrev fingers : List (Event ℕ)
fingers =
    event 0 (finger 0 ∷ [])
    ∷ event (5 + 256) (finger 0 ∷ finger 1 ∷ [])
    ∷ event (5 + 512) (finger 0 ∷ finger 1 ∷ finger 2 ∷ [])
    ∷ event 2 (finger 0 ∷ finger 1 ∷ finger 2 ∷ [])
    ∷ event 6 (finger 0 ∷ finger 1 ∷ finger 2 ∷ [])
    ∷ event (6 + 256) (finger 1 ∷ finger 2 ∷ [])
    ∷ event 1 (finger 1 ∷ [])
    ∷ []

abbrev touches : Touches [] fingers []
touches = next (first (finger 0) (event 0 (finger 0 ∷ [])) refl refl) (
    next (another (0 ∷ []) (finger 1) (event (5 + 256) (finger 0 ∷ finger 1 ∷ [])) refl refl refl) (
      next
        (another (0 ∷ 1 ∷ []) (finger 2) (event (5 + 512) (finger 0 ∷ finger 1 ∷ finger 2 ∷ []))
          refl refl refl)
        (next
          (moved (0 ∷ 1 ∷ 2 ∷ []) (event 2 (finger 0 ∷ finger 1 ∷ finger 2 ∷ [])) refl (omega arith)
            refl)
          (next
            (released [] (1 ∷ 2 ∷ []) (finger 0) (event 6 (finger 0 ∷ finger 1 ∷ finger 2 ∷ []))
              refl refl tt (omega arith) refl)
            (next
              (released (1 ∷ []) [] (finger 2) (event (6 + 256) (finger 1 ∷ finger 2 ∷ [])) refl
                refl (refl, tt) (omega arith) refl)
              (next (last (finger 1) (event 1 (finger 1 ∷ [])) refl refl) (done [])))))))

abbrev still : Event ℕ
still = event 2 []

detectors-Touches_example :
    (detect_all pinch_detect (record { vec_pointers = []; event = still }) fingers
      ≡ ok (
        0 ∷ 1 ∷ 0 ∷ 2 ∷ 5 ∷ 0 ∷ 0 ∷ [],
        record { vec_pointers = []; event = event 1 (finger 1 ∷ []) },
      ))
    × (detect_all drag_detect (record { vec_pointers = []; event = still }) fingers
        ≡ ok (
          1 ∷ 0 ∷ 0 ∷ 0 ∷ 0 ∷ 1 ∷ 4 ∷ [],
          record { vec_pointers = []; event = event 1 (finger 1 ∷ []) },
        ))
detectors-Touches_example = detectors-Touches touches still

abbrev whole : Floats
whole = record {
  F = ℕ;
  of_int = λ n. n;
  sub = λ x y. x - y;
  add = λ x y. x + y;
  mul = λ x y. x * y;
  div = λ x y. x / y;
  less = ltb;
}

abbrev fresh_tap : TapDetector whole
fresh_tap = record { dp_factor = 1; down_pointer_id = 9; down_place = (0, 0) }

abbrev fresh_doubletap : DoubletapDetector whole
fresh_doubletap = record {
  dp_factor = 1;
  tap_detector = fresh_tap;
  last_tap_time = 0;
  last_tap_place = (0, 0);
}

abbrev event_at : ℕ → ℕ → Event ℕ
event_at action time = record {
  action = action;
  pointers = finger 3 ∷ [];
  event_time = time;
  down_time = 1000000000;
}

doubletap_detect-second_example :
    detect_all (doubletap_detect whole) fresh_doubletap (
      event_at 0 1000000000
      ∷ event_at 2 1050000000
      ∷ event_at 1 1100000000
      ∷ event_at 0 1300000000
      ∷ [])
    ≡ ok (
      0 ∷ 0 ∷ 0 ∷ 5 ∷ [],
      record {
        dp_factor = 1;
        tap_detector = record { dp_factor = 1; down_pointer_id = 3; down_place = (30, 0) };
        last_tap_time = 1100000000;
        last_tap_place = (30, 0);
      },
    )
unfolding is_near
doubletap_detect-second_example =
    doubletap_detect-second whole fresh_doubletap (event_at 0 1000000000) (event_at 1 1100000000)
      (event_at 0 1300000000) (event_at 2 1050000000 ∷ []) (finger 3) (finger 3) (finger 3) refl
      refl (refl, tt) refl refl refl refl
