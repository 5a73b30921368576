-- ===== src/NativeAppGlue/Threads/Requests.antt =====
-- The callbacks of android_native_app_glue.c keep what holds between the two threads.
pub mod Writes
use ndk.Base.{
  ℕ, ◌≡◌, ◌≢◌, refl, ap, sym, ◌∙◌, true, false, Option, none, some, Bytes, [], ◌∷◌, ◌++◌, inl, inr,
  Option-cases,
}
use mathlib.Core.Path.{subst}
use ndk.NativeAppGlue.{
  Cmd, input_changed, init_window, term_window, save_state, config_changed, low_memory, start,
  resume, pause, stop, destroy, gained_focus, lost_focus, app_cmd, Handle, AndroidApp, OnAppCmd,
  android_app_create, android_app_write_cmd, android_app_set_input, android_app_set_window,
  android_app_set_activity_state, android_app_free, on_save_instance_state, take_saved_state,
}
use ndk.NativeAppGlue.Callbacks.{
  ActivityState, started, resumed, paused, stopped, state_cmd, Callback, on_destroy, on_save,
  on_configuration_changed, on_low_memory, on_state, on_window_focus_changed,
  on_native_window_created, on_native_window_destroyed, on_input_queue_created,
  on_input_queue_destroyed, request, finish,
}
use ndk.NativeAppGlue.Threads.{
  AppThread, created, MainThread, creating, free, waiting, Glue, after, every_cmd, Step, app_step,
  thread_started, callback, wake, Reachable, begin, then_step,
}
use ndk.NativeAppGlue.Threads.Settled.{
  left, after_all, settled, after_all-append, window_effect, input_effect, state_effect,
  saved_effect, request_effect,
}
use ndk.NativeAppGlue.Threads.Invariant.{leaving, Handshake, AppStep-Handshake}
use ndk.NativeAppGlue.Threads.Requests.Writes.{Handshake-write, Handshake-input, Handshake-window}

some-injective : {a b : AndroidApp} → some a ≡ some b → a ≡ b
some-injective e = cc

asked :
    (a s : ActivityState)
    → waiting (on_state a) ≡ waiting (on_state s)
    → app_cmd (state_cmd a) ≡ app_cmd (state_cmd s)
asked a s e = cc

callback-Handshake :
    (app : AndroidApp) (t : AppThread) (c : Callback)
    → Handshake app t free
    → Handshake (request every_cmd c app) t (waiting c)
unfolding request android_app_free on_save_instance_state android_app_set_activity_state
    android_app_write_cmd
callback-Handshake app t on_destroy i =
    Handshake-write app t free (waiting on_destroy) destroy app.pending_window
      app.pending_input_queue i i.window i.input (λ s e. cc) (λ e. cc) refl
callback-Handshake app t on_save i =
    Handshake-write (record app { state_saved = false }) t free (waiting on_save) save_state
      app.pending_window app.pending_input_queue
      (record {
        window = i.window;
        input = i.input;
        state = i.state;
        saved = λ e. cc;
        requested = i.requested;
        quits = i.quits;
        destroyed = i.destroyed;
      })
      i.window i.input (λ s e. cc) (λ e. refl) refl
callback-Handshake app t on_configuration_changed i =
    Handshake-write app t free (waiting on_configuration_changed) config_changed app.pending_window
      app.pending_input_queue i i.window i.input (λ s e. cc) (λ e. cc) refl
callback-Handshake app t on_low_memory i =
    Handshake-write app t free (waiting on_low_memory) low_memory app.pending_window
      app.pending_input_queue i i.window i.input (λ s e. cc) (λ e. cc) refl
callback-Handshake app t (on_state started) i =
    Handshake-write app t free (waiting (on_state started)) start app.pending_window
      app.pending_input_queue i i.window i.input (λ s e. asked started s e) (λ e. cc) refl
callback-Handshake app t (on_state resumed) i =
    Handshake-write app t free (waiting (on_state resumed)) resume app.pending_window
      app.pending_input_queue i i.window i.input (λ s e. asked resumed s e) (λ e. cc) refl
callback-Handshake app t (on_state paused) i =
    Handshake-write app t free (waiting (on_state paused)) pause app.pending_window
      app.pending_input_queue i i.window i.input (λ s e. asked paused s e) (λ e. cc) refl
callback-Handshake app t (on_state stopped) i =
    Handshake-write app t free (waiting (on_state stopped)) stop app.pending_window
      app.pending_input_queue i i.window i.input (λ s e. asked stopped s e) (λ e. cc) refl
callback-Handshake app t (on_window_focus_changed true) i =
    Handshake-write app t free (waiting (on_window_focus_changed true)) gained_focus
      app.pending_window app.pending_input_queue i i.window i.input (λ s e. cc) (λ e. cc) refl
callback-Handshake app t (on_window_focus_changed false) i =
    Handshake-write app t free (waiting (on_window_focus_changed false)) lost_focus
      app.pending_window app.pending_input_queue i i.window i.input (λ s e. cc) (λ e. cc) refl
callback-Handshake app t (on_native_window_created window) i =
    Handshake-window app t (on_native_window_created window) window i
      (record { state = λ s e. cc; saved = λ e. cc; leaving = refl })
callback-Handshake app t on_native_window_destroyed i =
    Handshake-window app t on_native_window_destroyed none i
      (record { state = λ s e. cc; saved = λ e. cc; leaving = refl })
callback-Handshake app t (on_input_queue_created queue) i =
    Handshake-input app t (on_input_queue_created queue) queue i
      (record { state = λ s e. cc; saved = λ e. cc; leaving = refl })
callback-Handshake app t on_input_queue_destroyed i =
    Handshake-input app t on_input_queue_destroyed none i
      (record { state = λ s e. cc; saved = λ e. cc; leaving = refl })

wake-Handshake :
    (app : AndroidApp) (t : AppThread) (c : Callback)
    → Handshake app t (waiting c)
    → Handshake (finish c app).1 t (after c)
unfolding finish take_saved_state
wake-Handshake app t on_save i = record {
  window = i.window;
  input = i.input;
  state = λ s e. cc;
  saved = λ e. cc;
  requested = i.requested;
  quits = i.quits;
  destroyed = i.destroyed;
}
wake-Handshake app t _ i = record {
  window = i.window;
  input = i.input;
  state = λ s e. cc;
  saved = λ e. cc;
  requested = i.requested;
  quits = i.quits;
  destroyed = i.destroyed;
}

started-Handshake :
    (app : AndroidApp) (t : AppThread) → Handshake app t creating → Handshake app t free
started-Handshake app t i = record {
  window = i.window;
  input = i.input;
  state = λ s e. cc;
  saved = λ e. cc;
  requested = i.requested;
  quits = i.quits;
  destroyed = i.destroyed;
}

create-Handshake :
    (saved_state : Option Bytes) (app : AndroidApp)
    → android_app_create true saved_state ≡ some app
    → Handshake app created creating
unfolding android_app_create
create-Handshake saved_state app e =
    subst (λ a. Handshake a created creating) (some-injective e)
      (record {
        window = refl;
        input = refl;
        state = λ s h. cc;
        saved = λ h. cc;
        requested = refl;
        quits = λ h. cc;
        destroyed = refl;
      })

module _ (asset_config : ℕ) (on_app_cmd : OnAppCmd) where
  Step-Handshake :
      {g h : Glue}
      → Step asset_config on_app_cmd g h
      → Handshake g.app g.app_thread g.main_thread
      → Handshake h.app h.app_thread h.main_thread
  Step-Handshake (app_step s) i = AppStep-Handshake asset_config on_app_cmd s i
  Step-Handshake (thread_started app t e) i = started-Handshake app t i
  Step-Handshake (callback app t c) i = callback-Handshake app t c i
  Step-Handshake (wake app t c e) i = wake-Handshake app t c i

  -- In every state of a run, processing the commands under way would give the window and the input
  -- queue that were set last, the activity's state or the saved state that is waited for, and the
  -- request to be destroyed exactly after the last callback; the structure is marked as destroyed
  -- exactly when the application's thread is at its end.
  pub Reachable-Handshake :
      (g : Glue) → Reachable asset_config on_app_cmd g → Handshake g.app g.app_thread g.main_thread
  Reachable-Handshake g (begin saved_state app e) = create-Handshake saved_state app e
  Reachable-Handshake g (then_step r s) = Step-Handshake s (Reachable-Handshake _ r)
