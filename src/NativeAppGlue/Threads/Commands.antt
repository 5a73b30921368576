-- ===== src/NativeAppGlue/Threads/Commands.antt =====
-- `process_cmd` of android_native_app_glue.c, and what the callbacks get from it.
use ndk.Base.{ℕ, ◌≡◌, ◌++◌, ap, refl, true, false, Option, none, some, [], ◌∷◌, Bytes}
use ndk.NativeAppGlue.{
  Cmd, save_state, AndroidApp, freed_state, free_saved_state, android_app_read_cmd,
  android_app_pre_exec_cmd, call_on_app_cmd, android_app_post_exec_cmd, process_cmd,
  android_app_write_cmd, on_save_instance_state, take_saved_state,
}
use ndk.NativeAppGlue.Callbacks.{on_save, request, waits, finish}
use ndk.NativeAppGlue.Threads.{every_cmd}

freed_state-none : (state : Option Bytes) → freed_state state ≡ none
freed_state-none none = refl
freed_state-none (some state) = refl

-- The structure when the callback waits, and when the command is processed.
abbrev saving : AndroidApp → AndroidApp
saving app = record app { state_saved = false; msgpipe = save_state ∷ [] }

request-saving : (app : AndroidApp) → app.msgpipe ≡ [] → request every_cmd on_save app ≡ saving app
unfolding request on_save_instance_state android_app_write_cmd
request-saving app e =
    ap (λ cs. record app { state_saved = false; msgpipe = cs ++ save_state ∷ [] }) e

abbrev saved_as : Option Bytes → AndroidApp → AndroidApp
saved_as state app = record app { saved_state = state; state_saved = true; msgpipe = [] }

process_cmd-saving :
    (asset_config : ℕ) (on_app_cmd : Option Cmd → Option Bytes → Option Bytes) (app : AndroidApp)
    → process_cmd asset_config (some on_app_cmd) (saving app)
      ≡ saved_as (on_app_cmd (some save_state) none) app
unfolding process_cmd android_app_read_cmd free_saved_state android_app_pre_exec_cmd call_on_app_cmd
    android_app_post_exec_cmd
process_cmd-saving asset_config on_app_cmd app =
    ap (λ state. saved_as (on_app_cmd (some save_state) state) app)
      (freed_state-none app.saved_state)

-- What the callback and the command that it writes do, with no other command under way.
pub record SavesState (on_app_cmd : Option Cmd → Option Bytes → Option Bytes)
    (before after : AndroidApp) : Type 0 where
  pub waits_first : waits on_save before ≡ true
  pub answered : waits on_save after ≡ false
  pub returned : (finish on_save after).0 ≡ on_app_cmd (some save_state) none
  pub nothing_left : ((finish on_save after).1).saved_state ≡ none

saved_as-SavesState :
    (on_app_cmd : Option Cmd → Option Bytes → Option Bytes) (app : AndroidApp)
    → SavesState on_app_cmd (saving app) (saved_as (on_app_cmd (some save_state) none) app)
unfolding waits finish take_saved_state
saved_as-SavesState on_app_cmd app = record {
  waits_first = refl;
  answered = refl;
  returned = refl;
  nothing_left = freed_state-none (on_app_cmd (some save_state) none);
}

-- With no other command under way, `onSaveInstanceState` waits until its command is processed, and
-- then returns what the application's handler saved, which found NULL, and leaves NULL.
pub on_save-SavesState :
    (asset_config : ℕ) (on_app_cmd : Option Cmd → Option Bytes → Option Bytes) (app : AndroidApp)
    → app.msgpipe ≡ []
    → SavesState on_app_cmd
        (request every_cmd on_save app)
        (process_cmd asset_config (some on_app_cmd) (request every_cmd on_save app))
on_save-SavesState asset_config on_app_cmd app e =
    rw (request-saving app e, process_cmd-saving asset_config on_app_cmd app)
      (saved_as-SavesState on_app_cmd app)
