-- ===== src/NativeAppGlue/Callbacks.antt =====
-- The callbacks that android_native_app_glue.c registers, as requests of the activity's thread:
-- what each does, how long it waits, and what it does behind the wait.
use ndk.Base.{Bool, false, not, Option, none, Bytes, ◌==◌, if◌then◌else◌}
use ndk.NativeAppGlue.{
  Cmd, gained_focus, lost_focus, config_changed, low_memory, start, resume, pause, stop, app_cmd,
  Handle, same, AndroidApp, android_app_write_cmd, android_app_set_input, android_app_set_window,
  android_app_set_activity_state, android_app_free, on_save_instance_state, take_saved_state,
}

-- The four commands that are states of the activity.
pub data ActivityState : Type 0 where
  started resumed paused stopped : ActivityState

abbrev pub state_cmd : ActivityState → Cmd
state_cmd started = start
state_cmd resumed = resume
state_cmd paused = pause
state_cmd stopped = stop

-- A call of a callback with its argument.
pub data Callback : Type 0 where
  on_destroy on_save on_configuration_changed on_low_memory : Callback
  on_state : ActivityState → Callback
  on_window_focus_changed : Bool → Callback
  on_native_window_created : Handle → Callback
  on_native_window_destroyed : Callback
  on_input_queue_created : Handle → Callback
  on_input_queue_destroyed : Callback

-- The callback up to the loop that waits on the condition variable.
unfoldable pub request : (Cmd → Bool) → Callback → AndroidApp → AndroidApp
request written on_destroy app = android_app_free written app
request written on_save app = on_save_instance_state written app
request written on_configuration_changed app = android_app_write_cmd written config_changed app
request written on_low_memory app = android_app_write_cmd written low_memory app
request written (on_state state) app = android_app_set_activity_state written (state_cmd state) app
request written (on_window_focus_changed focused) app =
    android_app_write_cmd written (if focused then gained_focus else lost_focus) app
request written (on_native_window_created window) app = android_app_set_window written window app
request written on_native_window_destroyed app = android_app_set_window written none app
request written (on_input_queue_created queue) app = android_app_set_input written queue app
request written on_input_queue_destroyed app = android_app_set_input written none app

-- The condition of that loop.
unfoldable pub waits : Callback → AndroidApp → Bool
waits on_destroy app = not app.destroyed
waits on_save app = not app.state_saved
waits (on_state state) app = not (app.activity_state == app_cmd (state_cmd state))
waits (on_native_window_created window) app = not (same app.window app.pending_window)
waits on_native_window_destroyed app = not (same app.window app.pending_window)
waits (on_input_queue_created queue) app = not (same app.input_queue app.pending_input_queue)
waits on_input_queue_destroyed app = not (same app.input_queue app.pending_input_queue)
waits _ app = false

-- What is left to do behind the loop, and the state that is returned.
unfoldable pub finish : Callback → AndroidApp → Option Bytes × AndroidApp
finish on_save app = take_saved_state app
finish _ app = (none, app)
