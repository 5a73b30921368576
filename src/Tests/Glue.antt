-- ===== src/Tests/Glue.antt =====
-- A run of android_native_app_glue.c: the thread starts, and a window is created.
use mathlib.Core.Path.{subst}
use ndk.Base.{
  ℕ, ◌≤◌, ◌<◌, length, ap, arith, Bool, List, ◌≡◌, refl, true, false, Option, none, some, [], ◌∷◌,
  Bytes, codes,
}
use ndk.NativeAppGlue.{
  Cmd, init_window, save_state, AndroidApp, android_app_create, android_app_entry, process_cmd,
  android_app_set_window, android_app_write_cmd,
}
use ndk.NativeAppGlue.Callbacks.{Callback, on_save, on_native_window_created, request}
use ndk.NativeAppGlue.Input.{
  InputQueue, OnInputEvent, Answered, process_input, process_input-Answered,
}
use ndk.NativeAppGlue.Threads.{
  polling, creating, waiting, every_cmd, entry, app_step, thread_started, callback, Reachable,
  begin, then_step,
}
use ndk.NativeAppGlue.Threads.Invariant.{Handshake}
use ndk.NativeAppGlue.Threads.Requests.{Reachable-Handshake}
use ndk.NativeAppGlue.Threads.Served.{Served, Reachable-Served}
use ndk.NativeAppGlue.Threads.Commands.{SavesState, on_save-SavesState}

-- The structure that `android_app_create` makes.
abbrev new_app : AndroidApp
new_app = record {
  config = none;
  saved_state = none;
  input_queue = none;
  window = none;
  activity_state = 0;
  destroy_requested = false;
  running = false;
  state_saved = false;
  destroyed = false;
  pending_input_queue = none;
  pending_window = none;
  msgpipe = [];
  attached = none;
}

abbrev running_app : AndroidApp
running_app = record new_app { config = some 5; running = true }

abbrev shown : Callback
shown = on_native_window_created (some 7)

abbrev windowed_app : AndroidApp
windowed_app = record running_app { pending_window = some 7; msgpipe = init_window ∷ [] }

windowed_app-Reachable :
    Reachable 5 none
      (record { app = windowed_app; app_thread = polling; main_thread = waiting shown })
unfolding android_app_create android_app_entry request android_app_set_window android_app_write_cmd
windowed_app-Reachable =
    then_step
      (then_step (then_step (begin none new_app refl) (app_step (entry new_app creating)))
        (thread_started running_app polling refl))
      (callback running_app polling shown)

Reachable-Handshake_example : Handshake windowed_app polling (waiting shown)
Reachable-Handshake_example =
    Reachable-Handshake 5 none
      (record { app = windowed_app; app_thread = polling; main_thread = waiting shown })
      windowed_app-Reachable

Reachable-Served_example :
    Served 5 none
      (record { app = windowed_app; app_thread = polling; main_thread = waiting shown })
      shown
Reachable-Served_example = Reachable-Served 5 none windowed_app polling shown windowed_app-Reachable

-- A handler that saves two bytes.
abbrev saver : Option Cmd → Option Bytes → Option Bytes
saver (some save_state) state = some (codes "ok")
saver _ state = state

on_save-SavesState_example :
    SavesState saver
      (request every_cmd on_save running_app)
      (process_cmd 5 (some saver) (request every_cmd on_save running_app))
on_save-SavesState_example = on_save-SavesState 5 saver running_app refl

-- The events that are left, whether each is taken before dispatch, and whether the one that was got
-- is.
abbrev Events : Type 0
Events = Bool × List (ℕ × Bool)

abbrev next_event : Events → Option ℕ × Events
next_event (now, []) = (none, (now, []))
next_event (now, (event, taken_first) ∷ events) = (some event, (taken_first, events))

abbrev events_queue : InputQueue Events
events_queue = record {
  get_event = next_event;
  pre_dispatch_event = λ event w. (w.0, w);
  finish_event = λ event code w. w;
}

abbrev nine : OnInputEvent Events
nine = some (λ event w. (9, w))

abbrev events_left : Events → ℕ
events_left w = length w.1

next_event-left :
    (w w' : Events) (event : ℕ) → next_event w ≡ (some event, w') → events_left w' < events_left w
next_event-left (now, []) w' event e = cc
next_event-left (now, (event', taken_first) ∷ events) w' event e =
    let same = ap (λ p. events_left p.1) e in omega (arith, same)

handled_by-nine :
    (on_input : ℕ → Events → ℕ × Events)
    → nine ≡ some on_input
    → (event : ℕ) (w : Events) → events_left (on_input event w).1 ≤ events_left w
handled_by-nine on_input e event w =
    subst (λ (h : OnInputEvent Events). kept h) e (λ event w. omega arith) event w
  where
    kept : OnInputEvent Events → Type 0
    kept none = Unit
    kept (some h) = (event : ℕ) (w : Events) → events_left (h event w).1 ≤ events_left w

-- An event that is taken before dispatch, and two that are not.
process_input-Answered_example :
    Answered events_queue nine
      (process_input events_queue nine 4 (false, (4, true) ∷ (4, false) ∷ (5, false) ∷ []))
process_input-Answered_example =
    process_input-Answered events_queue nine events_left
      (record {
        got_event = next_event-left;
        pre_dispatched = λ event w. omega arith;
        finished_event = λ event code w. omega arith;
        handled_event = handled_by-nine;
      })
      4 (false, (4, true) ∷ (4, false) ∷ (5, false) ∷ []) (omega arith)
