-- ===== src/Gestures/State.antt =====
-- GESTURE_STATE and the actions of a motion event, as gestureDetector.cpp and the NDK's input.h
-- number them.
use Prim.Native.Nat.{ℕ}

abbrev pub none : ℕ
none = 0

abbrev pub start : ℕ
start = 1

abbrev pub move : ℕ
move = 2

-- START | END
abbrev pub action : ℕ
action = 5

-- AMOTION_EVENT_ACTION_DOWN and so on.
abbrev pub down : ℕ
down = 0

abbrev pub up : ℕ
up = 1

abbrev pub moved : ℕ
moved = 2

abbrev pub pointer_down : ℕ
pointer_down = 5

abbrev pub pointer_up : ℕ
pointer_up = 6

-- GESTURE_STATE_END
abbrev pub finished : ℕ
finished = 4
