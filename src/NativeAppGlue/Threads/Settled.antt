-- ===== src/NativeAppGlue/Threads/Settled.antt =====
-- What the fields of `android_app` will be when all commands that are under way are processed.
use ndk.Base.{ℕ, ◌≡◌, refl, Bool, true, Option, none, some, List, [], ◌∷◌, ◌++◌}
use ndk.NativeAppGlue.{
  Cmd, input_changed, init_window, term_window, start, resume, pause, stop, save_state, destroy,
  app_cmd, Handle, AndroidApp, OnAppCmd, free_saved_state, android_app_pre_exec_cmd,
  call_on_app_cmd, android_app_post_exec_cmd,
}
use ndk.NativeAppGlue.Threads.{AppThread, polling, read_done, pre_done, call_done}

-- What the functions before and behind the application's handler do to one field.
pub record Effect (X : Type 0) : Type 0 where
  pub pre : Option Cmd → X → X
  pub post : Option Cmd → X → X

pub data Phase : Type 0 where
  pre_phase call_phase post_phase : Phase

module _ {X : Type 0} (e : Effect X) where
  abbrev pub act : Phase → Option Cmd → X → X
  act pre_phase c x = e.pre c x
  act call_phase c x = x
  act post_phase c x = e.post c x

  -- What is left of the command that the thread is at.
  abbrev pub left : AppThread → X → X
  left (read_done c) x = e.post c (e.pre c x)
  left (pre_done c) x = e.post c x
  left (call_done c) x = e.post c x
  left _ x = x

  abbrev pub after_all : List Cmd → X → X
  after_all [] x = x
  after_all (c ∷ cs) x = after_all cs (e.post (some c) (e.pre (some c) x))

  abbrev pub settled : AppThread → List Cmd → X → X
  settled t cs x = after_all cs (left t x)

  pub after_all-append :
      (cs : List Cmd) (c : Cmd) (x : X)
      → after_all (cs ++ c ∷ []) x ≡ e.post (some c) (e.pre (some c) (after_all cs x))
  after_all-append [] c x = refl
  after_all-append (d ∷ cs) c x = after_all-append cs c (e.post (some d) (e.pre (some d) x))

abbrev pub window_effect : Handle → Effect Handle
window_effect pending = record {
  pre = λ c window. elim c [ some init_window ↦ pending | _ ↦ window ];
  post = λ c window. elim c [ some term_window ↦ none | _ ↦ window ];
}

abbrev pub input_effect : Handle → Effect Handle
input_effect pending = record {
  pre = λ c queue. elim c [ some input_changed ↦ pending | _ ↦ queue ];
  post = λ c queue. queue;
}

abbrev pub state_effect : Effect ℕ
state_effect = record {
  pre = λ c state. elim c [
    | some start ↦ app_cmd start
    | some resume ↦ app_cmd resume
    | some pause ↦ app_cmd pause
    | some stop ↦ app_cmd stop
    | _ ↦ state
  ];
  post = λ c state. state;
}

abbrev pub saved_effect : Effect Bool
saved_effect = record {
  pre = λ c saved. saved;
  post = λ c saved. elim c [ some save_state ↦ true | _ ↦ saved ];
}

abbrev pub request_effect : Effect Bool
request_effect = record {
  pre = λ c requested. elim c [ some destroy ↦ true | _ ↦ requested ];
  post = λ c requested. requested;
}

-- One of the three calls of `process_cmd` that follow the read.
pub record Acts (phase : Phase) (c : Option Cmd) (app app' : AndroidApp) : Type 0 where
  pub window : app'.window ≡ act (window_effect app.pending_window) phase c app.window
  pub input : app'.input_queue ≡ act (input_effect app.pending_input_queue) phase c app.input_queue
  pub state : app'.activity_state ≡ act state_effect phase c app.activity_state
  pub saved : app'.state_saved ≡ act saved_effect phase c app.state_saved
  pub requested : app'.destroy_requested ≡ act request_effect phase c app.destroy_requested
  pub pending_window : app'.pending_window ≡ app.pending_window
  pub pending_input : app'.pending_input_queue ≡ app.pending_input_queue
  pub msgpipe : app'.msgpipe ≡ app.msgpipe
  pub destroyed : app'.destroyed ≡ app.destroyed

pub android_app_pre_exec_cmd-Acts :
    (asset_config : ℕ) (c : Option Cmd) (app : AndroidApp)
    → Acts pre_phase c app (android_app_pre_exec_cmd asset_config c app)
unfolding android_app_pre_exec_cmd
android_app_pre_exec_cmd-Acts asset_config none app = record {
  window = refl;
  input = refl;
  state = refl;
  saved = refl;
  requested = refl;
  pending_window = refl;
  pending_input = refl;
  msgpipe = refl;
  destroyed = refl;
}
android_app_pre_exec_cmd-Acts asset_config (some input_changed) app = record {
  window = refl;
  input = refl;
  state = refl;
  saved = refl;
  requested = refl;
  pending_window = refl;
  pending_input = refl;
  msgpipe = refl;
  destroyed = refl;
}
android_app_pre_exec_cmd-Acts asset_config (some _) app = record {
  window = refl;
  input = refl;
  state = refl;
  saved = refl;
  requested = refl;
  pending_window = refl;
  pending_input = refl;
  msgpipe = refl;
  destroyed = refl;
}

pub call_on_app_cmd-Acts :
    (on_app_cmd : OnAppCmd) (c : Option Cmd) (app : AndroidApp)
    → Acts call_phase c app (call_on_app_cmd on_app_cmd c app)
unfolding call_on_app_cmd
call_on_app_cmd-Acts none c app = record {
  window = refl;
  input = refl;
  state = refl;
  saved = refl;
  requested = refl;
  pending_window = refl;
  pending_input = refl;
  msgpipe = refl;
  destroyed = refl;
}
call_on_app_cmd-Acts (some f) c app = record {
  window = refl;
  input = refl;
  state = refl;
  saved = refl;
  requested = refl;
  pending_window = refl;
  pending_input = refl;
  msgpipe = refl;
  destroyed = refl;
}

pub android_app_post_exec_cmd-Acts :
    (c : Option Cmd) (app : AndroidApp) → Acts post_phase c app (android_app_post_exec_cmd c app)
unfolding android_app_post_exec_cmd free_saved_state
android_app_post_exec_cmd-Acts none app = record {
  window = refl;
  input = refl;
  state = refl;
  saved = refl;
  requested = refl;
  pending_window = refl;
  pending_input = refl;
  msgpipe = refl;
  destroyed = refl;
}
android_app_post_exec_cmd-Acts (some term_window) app = record {
  window = refl;
  input = refl;
  state = refl;
  saved = refl;
  requested = refl;
  pending_window = refl;
  pending_input = refl;
  msgpipe = refl;
  destroyed = refl;
}
android_app_post_exec_cmd-Acts (some _) app = record {
  window = refl;
  input = refl;
  state = refl;
  saved = refl;
  requested = refl;
  pending_window = refl;
  pending_input = refl;
  msgpipe = refl;
  destroyed = refl;
}

-- The thread's place before and behind a call.
pub data Moves : Phase → Option Cmd → AppThread → AppThread → Type 0 where
  pre_moves : (c : Option Cmd) → Moves pre_phase c (read_done c) (pre_done c)
  stays : (c : Option Cmd) (t : AppThread) → Moves call_phase c t t
  call_moves : (c : Option Cmd) → Moves call_phase c (pre_done c) (call_done c)
  post_moves : (c : Option Cmd) → Moves post_phase c (call_done c) polling

-- A call leaves what a field will be in the end.
pub settled-act :
    {X : Type 0} (e : Effect X) {phase : Phase} {c : Option Cmd} {t t' : AppThread} (cs : List Cmd)
    (x : X)
    → Moves phase c t t'
    → settled e t' cs (act e phase c x) ≡ settled e t cs x
settled-act e cs x (pre_moves c) = refl
settled-act e cs x (stays c t) = refl
settled-act e cs x (call_moves c) = refl
settled-act e cs x (post_moves c) = refl
