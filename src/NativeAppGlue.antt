-- ===== src/NativeAppGlue.antt =====
-- sources/android/native_app_glue/android_native_app_glue.c: the state that the thread of the
-- activity's callbacks and the thread of the application share, and the functions of both.
pub mod Callbacks
pub mod Input
pub mod Threads
use ndk.Base.{
  ℕ, Bool, true, false, Option, none, some, List, [], ◌∷◌, ◌++◌, Bytes, ◌==◌, if◌then◌else◌,
}

-- `APP_CMD_*`
pub data Cmd : Type 0 where
  input_changed init_window term_window window_resized window_redraw_needed : Cmd
  content_rect_changed gained_focus lost_focus config_changed low_memory : Cmd
  start resume save_state pause stop destroy : Cmd

-- The value of the `enum`.
abbrev pub app_cmd : Cmd → ℕ
app_cmd input_changed = 0
app_cmd init_window = 1
app_cmd term_window = 2
app_cmd window_resized = 3
app_cmd window_redraw_needed = 4
app_cmd content_rect_changed = 5
app_cmd gained_focus = 6
app_cmd lost_focus = 7
app_cmd config_changed = 8
app_cmd low_memory = 9
app_cmd start = 10
app_cmd resume = 11
app_cmd save_state = 12
app_cmd pause = 13
app_cmd stop = 14
app_cmd destroy = 15

-- A pointer that may be NULL, to an object that Android owns.
abbrev pub Handle : Type 0
Handle = Option ℕ

abbrev pub same : Handle → Handle → Bool
same none none = true
same (some a) (some b) = a == b
same _ _ = false

-- `struct android_app`, with the bytes of the pipe behind `msgread` and `msgwrite`, and the input
-- queue that the looper of the thread is attached to.
pub record AndroidApp : Type 0 where
  pub config : Option ℕ
  pub saved_state : Option Bytes
  pub input_queue : Handle
  pub window : Handle
  pub activity_state : ℕ
  pub destroy_requested : Bool
  pub running : Bool
  pub state_saved : Bool
  pub destroyed : Bool
  pub pending_input_queue : Handle
  pub pending_window : Handle
  pub msgpipe : List Cmd
  pub attached : Handle

-- `if (savedState != NULL) { free(savedState); savedState = NULL; }`
abbrev pub freed_state : Option Bytes → Option Bytes
freed_state none = none
freed_state (some state) = none

unfoldable pub free_saved_state : AndroidApp → AndroidApp
free_saved_state app = record app { saved_state = freed_state app.saved_state }

abbrev pub free_before : Cmd → AndroidApp → AndroidApp
free_before save_state app = free_saved_state app
free_before _ app = app

-- `none` is the -1 of a `read` that gives no byte.
unfoldable pub android_app_read_cmd : AndroidApp → Option Cmd × AndroidApp
android_app_read_cmd app = elim app.msgpipe [
  | [] ↦ (none, app)
  | cmd ∷ rest ↦ (some cmd, free_before cmd (record app { msgpipe = rest }))
]

-- `AInputQueue_detachLooper` on the old queue, `AInputQueue_attachLooper` on the new one.
abbrev pub attach : Handle → Handle → Handle → Handle
attach old none attached = if same old none then attached else none
attach old (some queue) attached = some queue

-- `asset_config` is what `AConfiguration_fromAssetManager` reads.
unfoldable pub android_app_pre_exec_cmd : ℕ → Option Cmd → AndroidApp → AndroidApp
android_app_pre_exec_cmd asset_config (some input_changed) app = record app {
  input_queue = app.pending_input_queue;
  attached = attach app.input_queue app.pending_input_queue app.attached;
}
android_app_pre_exec_cmd asset_config (some init_window) app = record app {
  window = app.pending_window;
}
android_app_pre_exec_cmd asset_config (some resume) app = record app {
  activity_state = app_cmd resume;
}
android_app_pre_exec_cmd asset_config (some start) app = record app {
  activity_state = app_cmd start;
}
android_app_pre_exec_cmd asset_config (some pause) app = record app {
  activity_state = app_cmd pause;
}
android_app_pre_exec_cmd asset_config (some stop) app = record app { activity_state = app_cmd stop }
android_app_pre_exec_cmd asset_config (some config_changed) app = record app {
  config = some asset_config;
}
android_app_pre_exec_cmd asset_config (some destroy) app = record app { destroy_requested = true }
android_app_pre_exec_cmd asset_config _ app = app

unfoldable pub android_app_post_exec_cmd : Option Cmd → AndroidApp → AndroidApp
android_app_post_exec_cmd (some term_window) app = record app { window = none }
android_app_post_exec_cmd (some save_state) app = record app { state_saved = true }
android_app_post_exec_cmd (some resume) app = free_saved_state app
android_app_post_exec_cmd _ app = app

-- The application's `onAppCmd`, which may be NULL. Of the structure it may change the saved state.
abbrev pub OnAppCmd : Type 0
OnAppCmd = Option (Option Cmd → Option Bytes → Option Bytes)

unfoldable pub call_on_app_cmd : OnAppCmd → Option Cmd → AndroidApp → AndroidApp
call_on_app_cmd none cmd app = app
call_on_app_cmd (some on_app_cmd) cmd app = record app {
  saved_state = on_app_cmd cmd app.saved_state;
}

unfoldable pub process_cmd : ℕ → OnAppCmd → AndroidApp → AndroidApp
process_cmd asset_config on_app_cmd app =
    let (cmd, app1) = android_app_read_cmd app in
    let app2 = android_app_pre_exec_cmd asset_config cmd app1 in
    android_app_post_exec_cmd cmd (call_on_app_cmd on_app_cmd cmd app2)

-- Up to the call of `android_main`.
unfoldable pub android_app_entry : ℕ → AndroidApp → AndroidApp
android_app_entry asset_config app = record app { config = some asset_config; running = true }

unfoldable pub android_app_destroy : AndroidApp → AndroidApp
android_app_destroy app = record (free_saved_state app) {
  attached = if same app.input_queue none then app.attached else none;
  config = none;
  destroyed = true;
}

-- Up to the wait for `running`. `piped` says whether `pipe` works.
unfoldable pub android_app_create : Bool → Option Bytes → Option AndroidApp
android_app_create false saved_state = none
android_app_create true saved_state = some (record {
  config = none;
  saved_state = saved_state;
  input_queue = none;
  window = none;
  activity_state = 0;
  destroy_requested = false;
  running = false;
  state_saved = false;
  destroyed = false;
  pending_input_queue = none;
  pending_window = none;
  msgpipe = [];
  attached = none;
})

-- A `write` that does not succeed is logged, and the command is lost.
unfoldable pub android_app_write_cmd : (Cmd → Bool) → Cmd → AndroidApp → AndroidApp
android_app_write_cmd written cmd app =
    if written cmd then record app { msgpipe = app.msgpipe ++ cmd ∷ [] } else app

-- The functions of the other thread up to their waits.
unfoldable pub android_app_set_input : (Cmd → Bool) → Handle → AndroidApp → AndroidApp
android_app_set_input written queue app =
    android_app_write_cmd written input_changed (record app { pending_input_queue = queue })

unfoldable pub android_app_set_window : (Cmd → Bool) → Handle → AndroidApp → AndroidApp
android_app_set_window written window app =
    let app1 =
      if same app.pending_window none then app else android_app_write_cmd written term_window app in
    let app2 = record app1 { pending_window = window } in
    if same window none then app2 else android_app_write_cmd written init_window app2

unfoldable pub android_app_set_activity_state : (Cmd → Bool) → Cmd → AndroidApp → AndroidApp
android_app_set_activity_state written cmd app = android_app_write_cmd written cmd app

unfoldable pub android_app_free : (Cmd → Bool) → AndroidApp → AndroidApp
android_app_free written app = android_app_write_cmd written destroy app

unfoldable pub on_save_instance_state : (Cmd → Bool) → AndroidApp → AndroidApp
on_save_instance_state written app =
    android_app_write_cmd written save_state (record app { state_saved = false })

-- Behind its wait: the state is handed over, and NULL left.
unfoldable pub take_saved_state : AndroidApp → Option Bytes × AndroidApp
take_saved_state app = (app.saved_state, record app { saved_state = freed_state app.saved_state })
