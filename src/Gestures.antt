-- ===== src/Gestures.antt =====
-- sources/android/ndk_helper/gestureDetector.cpp. A float is a value of a type that is a parameter,
-- with the operations that are used of it; times are numbers of nanoseconds.
pub mod State
pub mod Touches
pub mod Taps
use ndk.Base.{
  ℕ, zero, suc, ◌+◌, ◌-◌, ◌*◌, ◌/◌, ◌%◌, ◌&&◌, ◌||◌, not, Bool, true, false, Option, none, some,
  List, [], ◌∷◌, ◌++◌, length, ltb, leb, ◌==◌, if◌then◌else◌,
}
use ndk.Base.Checked.{Checked, ok, out_of_bounds, ◌>>=◌}
use ndk.Gestures.State

-- The type float with its conversion, operations and test.
pub record Floats : Type 1 where
  pub F : Type 0
  pub of_int : ℕ → F
  pub sub : F → F → F
  pub add : F → F → F
  pub mul : F → F → F
  pub div : F → F → F
  pub less : F → F → Bool

abbrev pub get_elem? {ℓ} : {A : Type ℓ} → List A → ℕ → Option A
get_elem? [] i = none
get_elem? (x ∷ xs) zero = some x
get_elem? (x ∷ xs) (suc i) = get_elem? xs i

-- An access with an index that is not there is undefined.
abbrev pub checked {ℓ} : {A : Type ℓ} → Option A → Checked A
checked none = out_of_bounds
checked (some a) = ok a

module _ (F : Type 0) where
  -- A pointer of an event: its id and its place.
  pub record Pointer : Type 0 where
    pub id : ℕ
    pub x : F
    pub y : F

  -- What AMotionEvent_get* give for an event.
  pub record Event : Type 0 where
    pub action : ℕ
    pub pointers : List Pointer
    pub event_time : ℕ
    pub down_time : ℕ

  -- `action & AMOTION_EVENT_ACTION_MASK`, and the index above it.
  abbrev pub flags : Event → ℕ
  flags e = e.action % 256

  abbrev pub pointer_index : Event → ℕ
  pointer_index e = e.action / 256 % 256

  -- AMotionEvent_getPointerId, getX and getY
  abbrev pub pointer_at : Event → ℕ → Checked Pointer
  pointer_at e i = checked (get_elem? e.pointers i)

  -- `FindIndex`: the pointer itself, in place of its index; none for -1.
  unfoldable pub find_index : List Pointer → ℕ → Option Pointer
  find_index [] id = none
  find_index (p ∷ pointers) id = if id == p.id then some p else find_index pointers id

  -- `vec_pointers_` and `event_` of a PinchDetector or a DragDetector.
  pub record Detector : Type 0 where
    pub vec_pointers : List ℕ
    pub event : Event

-- `vec_pointers_.pop_back()`
unfoldable pub pop_back : List ℕ → Checked (List ℕ)
pop_back [] = out_of_bounds
pop_back (id ∷ []) = ok []
pop_back (id ∷ next ∷ ids) = pop_back (next ∷ ids) >>= λ rest. ok (id ∷ rest)

-- The loop that erases a pointer: the position where it ends, and the pointers that are left.
unfoldable pub release_loop : ℕ → List ℕ → ℕ × List ℕ
release_loop id [] = (0, [])
release_loop id (first ∷ ids) =
    let (i, rest) = release_loop id ids in if first == id then (0, ids) else (suc i, first ∷ rest)

module _ {F : Type 0} where
  -- `PinchDetector::Detect`
  unfoldable pub pinch_detect : Detector F → Event F → Checked (ℕ × Detector F)
  pinch_detect detector e =
      let count = length e.pointers in
      let ids = detector.vec_pointers in
      if flags F e == State.down
      then (pointer_at F e 0 >>= λ p.
          ok (State.none, record { vec_pointers = ids ++ p.id ∷ []; event = e }))
      else if flags F e == State.pointer_down
      then (pointer_at F e (pointer_index F e) >>= λ p. ok (
        if count == 2 then State.start else State.none,
        record { vec_pointers = ids ++ p.id ∷ []; event = e },
      ))
      else if flags F e == State.up
      then (pop_back ids >>= λ rest. ok (State.none, record { vec_pointers = rest; event = e }))
      else if flags F e == State.pointer_up
      then (pointer_at F e (pointer_index F e) >>= λ p.
          let (i, rest) = release_loop p.id ids in
          ok (
            if leb i 1 && not (count == 2) then State.action else State.none,
            record { vec_pointers = rest; event = e },
          ))
      else if flags F e == State.moved
      then ok
          (if count == 1 then State.none else State.move, record { vec_pointers = ids; event = e })
      else ok (State.none, record { vec_pointers = ids; event = e })

  -- `DragDetector::Detect`
  unfoldable pub drag_detect : Detector F → Event F → Checked (ℕ × Detector F)
  drag_detect detector e =
      let count = length e.pointers in
      let ids = detector.vec_pointers in
      if flags F e == State.down
      then (pointer_at F e 0 >>= λ p.
          ok (State.start, record { vec_pointers = ids ++ p.id ∷ []; event = e }))
      else if flags F e == State.pointer_down
      then (pointer_at F e (pointer_index F e) >>= λ p.
          ok (State.none, record { vec_pointers = ids ++ p.id ∷ []; event = e }))
      else if flags F e == State.up
      then (pop_back ids >>= λ rest. ok (State.finished, record { vec_pointers = rest; event = e }))
      else if flags F e == State.pointer_up
      then (pointer_at F e (pointer_index F e) >>= λ p.
          let (i, rest) = release_loop p.id ids in
          ok (
            if leb i 1 && count == 2 then State.start else State.none,
            record { vec_pointers = rest; event = e },
          ))
      else if flags F e == State.moved
      then ok
          (if count == 1 then State.move else State.none, record { vec_pointers = ids; event = e })
      else ok (State.none, record { vec_pointers = ids; event = e })

  abbrev pub place_of : Pointer F → F × F
  place_of p = (p.x, p.y)

  abbrev pub two_places : Option (Pointer F) → Option (Pointer F) → Option ((F × F) × (F × F))
  two_places none q = none
  two_places (some p) none = none
  two_places (some p) (some q) = some (place_of p, place_of q)

  -- `PinchDetector::GetPointers`; none for `false`.
  abbrev pub pointers_of : List (Pointer F) → List ℕ → Option ((F × F) × (F × F))
  pointers_of pointers [] = none
  pointers_of pointers (id ∷ []) = none
  pointers_of pointers (id ∷ second ∷ ids) =
      two_places (find_index F pointers id) (find_index F pointers second)

  unfoldable pub get_pointers : Detector F → Option ((F × F) × (F × F))
  get_pointers detector = pointers_of detector.event.pointers detector.vec_pointers

  abbrev pub one_place : Option (Pointer F) → Option (F × F)
  one_place none = none
  one_place (some p) = some (place_of p)

  -- `DragDetector::GetPointer`
  abbrev pub pointer_of : List (Pointer F) → List ℕ → Option (F × F)
  pointer_of pointers [] = none
  pointer_of pointers (id ∷ ids) = one_place (find_index F pointers id)

  unfoldable pub get_pointer : Detector F → Option (F × F)
  get_pointer detector = pointer_of detector.event.pointers detector.vec_pointers

abbrev pub tap_timeout : ℕ
tap_timeout = 180 * 1000000

abbrev pub double_tap_timeout : ℕ
double_tap_timeout = 300 * 1000000

abbrev pub double_tap_slop : ℕ
double_tap_slop = 100

abbrev pub touch_slop : ℕ
touch_slop = 8

module _ (floats : Floats) where
  open floats use {F, of_int, sub, add, mul, div, less}

  -- What the constructor of GestureDetector leaves in `dp_factor_`.
  abbrev pub initial_dp_factor : F
  initial_dp_factor = of_int 1

  -- `160.f / AConfiguration_getDensity(config)`
  abbrev pub dp_factor_of : ℕ → F
  dp_factor_of density = div (of_int 160) (of_int density)

  -- `x * x + y * y < slop * slop * dp_factor_` for the way between two places.
  unfoldable pub is_near : ℕ → F → F × F → F × F → Bool
  is_near slop dp_factor (x, y) (x', y') =
      less (add (mul (sub x x') (sub x x')) (mul (sub y y') (sub y y')))
        (mul (of_int (slop * slop)) dp_factor)

  pub record TapDetector : Type 0 where
    pub dp_factor : F
    pub down_pointer_id : ℕ
    pub down_place : F × F

  -- `TapDetector::Detect`
  unfoldable pub tap_detect : TapDetector → Event F → Checked (ℕ × TapDetector)
  tap_detect t e =
      if ltb 1 (length e.pointers)
      then ok (State.none, t)
      else if flags F e == State.down
      then (pointer_at F e 0 >>= λ p.
          ok (State.none, record t { down_pointer_id = p.id; down_place = (p.x, p.y) }))
      else if flags F e == State.up && leb (e.event_time - e.down_time) tap_timeout
      then (pointer_at F e 0 >>= λ p. ok (
        if t.down_pointer_id == p.id && is_near touch_slop t.dp_factor (p.x, p.y) t.down_place
            then State.action
            else State.none,
        t,
      ))
      else ok (State.none, t)

  pub record DoubletapDetector : Type 0 where
    pub dp_factor : F
    pub tap_detector : TapDetector
    pub last_tap_time : ℕ
    pub last_tap_place : F × F

  -- `DoubletapDetector::Detect` behind the call of the tap detector.
  abbrev pub behind_tap :
      DoubletapDetector → Event F → ℕ × TapDetector → Checked (ℕ × DoubletapDetector)
  behind_tap d e (tap_detected, tap) =
      let kept : DoubletapDetector = record d { tap_detector = tap } in
      if flags F e == State.down && leb (e.event_time - d.last_tap_time) double_tap_timeout
      then (pointer_at F e 0 >>= λ p. ok (
        if is_near double_tap_slop d.dp_factor (p.x, p.y) d.last_tap_place
            then State.action
            else State.none,
        kept,
      ))
      else if flags F e == State.up && not (tap_detected == 0)
      then (pointer_at F e 0 >>= λ p.
          ok
            (State.none, record kept { last_tap_time = e.event_time; last_tap_place = (p.x, p.y) }))
      else ok (State.none, kept)

  unfoldable pub doubletap_detect : DoubletapDetector → Event F → Checked (ℕ × DoubletapDetector)
  doubletap_detect d e =
      if ltb 1 (length e.pointers)
      then ok (State.none, d)
      else tap_detect d.tap_detector e >>= behind_tap d e

  -- `SetConfiguration` of each detector
  abbrev pub set_tap_configuration : ℕ → TapDetector → TapDetector
  set_tap_configuration density t = record t { dp_factor = dp_factor_of density }

  abbrev pub set_configuration : ℕ → DoubletapDetector → DoubletapDetector
  set_configuration density d = record d {
    dp_factor = dp_factor_of density;
    tap_detector = set_tap_configuration density d.tap_detector;
  }
