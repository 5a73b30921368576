-- ===== src/NativeAppGlue/Threads/Served.antt =====
-- Every wait of a callback of android_native_app_glue.c comes to its end.
pub mod Waits
use ndk.Base.{
  ℕ, ◌≡◌, ◌≢◌, refl, ap, sym, ◌∙◌, true, false, not, Option, none, some, List, [], ◌∷◌, ==_refl,
}
use mathlib.Core.Path.{subst}
use ndk.NativeAppGlue.{
  Cmd, destroy, app_cmd, Handle, same, AndroidApp, OnAppCmd, android_app_read_cmd,
  android_app_pre_exec_cmd, call_on_app_cmd, android_app_post_exec_cmd, android_app_destroy,
  android_app_entry,
}
use ndk.NativeAppGlue.Callbacks.{
  Callback, on_destroy, on_save, on_configuration_changed, on_low_memory, on_state,
  on_window_focus_changed, on_native_window_created, on_native_window_destroyed,
  on_input_queue_created, on_input_queue_destroyed, state_cmd, waits,
}
use ndk.NativeAppGlue.Threads.{
  AppThread, created, polling, ended, read_done, pre_done, call_done, MainThread, waiting, Glue,
  AppStep, entry, read, pre_exec, call, post_exec, exit, app_step, Reachable, then_step, AppSteps,
  here, next,
}
use ndk.NativeAppGlue.Threads.Settled.{
  android_app_pre_exec_cmd-Acts, call_on_app_cmd-Acts, android_app_post_exec_cmd-Acts, after_all,
  window_effect, input_effect, state_effect, saved_effect, request_effect,
}
use ndk.NativeAppGlue.Threads.Invariant.{
  leaving, Handshake, android_app_read_cmd-eq, free_before-Acts,
}
use ndk.NativeAppGlue.Threads.Requests.{Reachable-Handshake}
use ndk.NativeAppGlue.Threads.Served.Waits.{Answered, polling-Answered, ended-waits, read-msgpipe}

-- No command is under way: the pipe is empty, or the thread is at its end.
data Drained : AppThread → AndroidApp → Type 0 where
  quiet : (app : AndroidApp) → app.msgpipe ≡ [] → Drained polling app
  over : (app : AndroidApp) → Drained ended app

module _ (asset_config : ℕ) (on_app_cmd : OnAppCmd) where
  -- Steps of the application's thread up to a state with no command under way.
  record Drains (g : Glue) : Type 0 where
    app : AndroidApp
    thread : AppThread
    steps :
        AppSteps asset_config on_app_cmd g
          (record { app = app; app_thread = thread; main_thread = g.main_thread })
    drained : Drained thread app

  Drains-step :
      {g h : Glue}
      → AppStep asset_config on_app_cmd g h
      → g.main_thread ≡ h.main_thread
      → Drains h
      → Drains g
  Drains-step {g} {h} s e d = record {
    app = d.app;
    thread = d.thread;
    steps = next s (
        subst
          (λ m.
            AppSteps asset_config on_app_cmd h
              (record { app = d.app; app_thread = d.thread; main_thread = m }))
          (sym e) d.steps);
    drained = d.drained;
  }

  -- From the read of a command on.
  Drains-read_done :
      (app : AndroidApp) (m : MainThread) (c : Option Cmd)
      → ((app' : AndroidApp)
          → app'.msgpipe ≡ app.msgpipe
          → Drains (record { app = app'; app_thread = polling; main_thread = m }))
      → Drains (record { app = app; app_thread = read_done c; main_thread = m })
  Drains-read_done app m c rest =
      let app1 = android_app_pre_exec_cmd asset_config c app in
      let app2 = call_on_app_cmd on_app_cmd c app1 in
      let app3 = android_app_post_exec_cmd c app2 in
      Drains-step (pre_exec app m c) refl (
        Drains-step (call app1 m c) refl (
          Drains-step (post_exec app2 m c) refl (
            rest app3 (
              (android_app_post_exec_cmd-Acts c app2).msgpipe
              ∙ (call_on_app_cmd-Acts on_app_cmd c app1).msgpipe
              ∙ (android_app_pre_exec_cmd-Acts asset_config c app).msgpipe))))

  Drains-polling :
      (cs : List Cmd) (app : AndroidApp) (m : MainThread)
      → app.msgpipe ≡ cs
      → Drains (record { app = app; app_thread = polling; main_thread = m })
  Drains-polling [] app m e = record {
    app = app;
    thread = polling;
    steps = here;
    drained = quiet app e;
  }
  Drains-polling (c ∷ cs) app m e = Drains-step (read app m c cs e) refl (
      Drains-read_done (android_app_read_cmd app).1 m (android_app_read_cmd app).0
        (λ app' e'. Drains-polling cs app' m (e' ∙ read-msgpipe app c cs e)))

  Drains-any :
      (app : AndroidApp) (t : AppThread) (m : MainThread)
      → Drains (record { app = app; app_thread = t; main_thread = m })
  Drains-any app created m =
      Drains-step (entry app m) refl (Drains-polling _ (android_app_entry asset_config app) m refl)
  Drains-any app polling m = Drains-polling app.msgpipe app m refl
  Drains-any app ended m = record { app = app; thread = ended; steps = here; drained = over app }
  Drains-any app (read_done c) m =
      Drains-read_done app m c (λ app' _. Drains-polling app'.msgpipe app' m refl)
  Drains-any app (pre_done c) m = Drains-step (call app m c) refl (
      Drains-step (post_exec (call_on_app_cmd on_app_cmd c app) m c) refl
        (Drains-polling _ _ m refl))
  Drains-any app (call_done c) m = Drains-step (post_exec app m c) refl (Drains-polling _ _ m refl)

  Reachable-AppSteps :
      {g h : Glue}
      → Reachable asset_config on_app_cmd g
      → AppSteps asset_config on_app_cmd g h
      → Reachable asset_config on_app_cmd h
  Reachable-AppSteps r here = r
  Reachable-AppSteps r (next s rest) = Reachable-AppSteps (then_step r (app_step s)) rest

  -- The application's thread can go on to a state in which the callback need not wait.
  pub record Served (g : Glue) (c : Callback) : Type 0 where
    pub app : AndroidApp
    pub thread : AppThread
    pub steps :
        AppSteps asset_config on_app_cmd g
          (record { app = app; app_thread = thread; main_thread = waiting c })
    pub answered : waits c app ≡ false

  AppSteps-then :
      {g h k : Glue}
      → AppSteps asset_config on_app_cmd g h
      → AppStep asset_config on_app_cmd h k
      → AppSteps asset_config on_app_cmd g k
  AppSteps-then here s = next s here
  AppSteps-then (next s' steps) s = next s' (AppSteps-then steps s)

  Served-polling :
      (g : Glue) (app : AndroidApp) (c : Callback)
      → AppSteps asset_config on_app_cmd g
          (record { app = app; app_thread = polling; main_thread = waiting c })
      → Answered c app
      → Served g c
  unfolding waits android_app_destroy
  Served-polling g app on_destroy steps e = record {
    app = android_app_destroy app;
    thread = ended;
    steps = AppSteps-then steps (exit app (waiting on_destroy) e);
    answered = refl;
  }
  Served-polling g app _ steps e = record {
    app = app;
    thread = polling;
    steps = steps;
    answered = e;
  }

  Served-Drained :
      (g : Glue) (c : Callback) {app : AndroidApp} {t : AppThread}
      → Drained t app
      → Handshake app t (waiting c)
      → AppSteps asset_config on_app_cmd g
          (record { app = app; app_thread = t; main_thread = waiting c })
      → Served g c
  Served-Drained g c (quiet app e) i steps =
      Served-polling g app c steps (polling-Answered app c i e)
  Served-Drained g c (over app) i steps = record {
    app = app;
    thread = ended;
    steps = steps;
    answered = ended-waits app c i;
  }

  -- In every state of a run in which a callback waits, the application's thread can go on, by steps
  -- of its own alone, to a state in which the condition of the wait no longer holds.
  pub Reachable-Served :
      (app : AndroidApp) (t : AppThread) (c : Callback)
      → Reachable asset_config on_app_cmd
          (record { app = app; app_thread = t; main_thread = waiting c })
      → Served (record { app = app; app_thread = t; main_thread = waiting c }) c
  Reachable-Served app t c r =
      let d = Drains-any app t (waiting c) in
      Served-Drained _ c d.drained
        (Reachable-Handshake asset_config on_app_cmd _ (Reachable-AppSteps r d.steps)) d.steps
