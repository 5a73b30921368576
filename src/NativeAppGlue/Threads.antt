-- ===== src/NativeAppGlue/Threads.antt =====
-- The two threads of android_native_app_glue.c as a step relation. A section under the mutex is one
-- step, and a thread that waits on the condition variable leaves the steps to the other.
pub mod Settled
pub mod Invariant
pub mod Requests
pub mod Served
pub mod Commands
use ndk.Base.{ℕ, ◌≡◌, Bool, true, false, Option, none, some, List, [], ◌∷◌, Bytes}
use ndk.NativeAppGlue.{
  Cmd, AndroidApp, OnAppCmd, android_app_read_cmd, android_app_pre_exec_cmd, call_on_app_cmd,
  android_app_post_exec_cmd, android_app_entry, android_app_destroy, android_app_create,
}
use ndk.NativeAppGlue.Callbacks.{Callback, on_destroy, request, waits, finish}

-- Where the application's thread stands: before `android_app_entry`, in the loop of `android_main`,
-- inside `process_cmd` behind the first, second and third of its calls, and at its end.
pub data AppThread : Type 0 where
  created polling ended : AppThread
  read_done pre_done call_done : Option Cmd → AppThread

-- Where the thread of the callbacks stands: it waits for `running`, is free for the next callback,
-- waits in one, or has freed the structure.
pub data MainThread : Type 0 where
  creating free freed : MainThread
  waiting : Callback → MainThread

pub record Glue : Type 0 where
  pub app : AndroidApp
  pub app_thread : AppThread
  pub main_thread : MainThread

abbrev pub after : Callback → MainThread
after on_destroy = freed
after _ = free

abbrev pub every_cmd : Cmd → Bool
every_cmd cmd = true

-- The parameters of a run: the device's configuration, and the application's handler.
module _ (asset_config : ℕ) (on_app_cmd : OnAppCmd) where
  -- A step of the application's thread. `android_main` polls, and calls `process_cmd` when there is
  -- a command; it returns when it is asked to.
  pub data AppStep : Glue → Glue → Type 0 where
    entry :
        (app : AndroidApp) (m : MainThread)
        → AppStep
            (record { app = app; app_thread = created; main_thread = m })
            (record {
              app = android_app_entry asset_config app;
              app_thread = polling;
              main_thread = m;
            })
    read :
        (app : AndroidApp) (m : MainThread) (cmd : Cmd) (rest : List Cmd)
        → app.msgpipe ≡ cmd ∷ rest
        → AppStep
            (record { app = app; app_thread = polling; main_thread = m })
            (record {
              app = (android_app_read_cmd app).1;
              app_thread = read_done (android_app_read_cmd app).0;
              main_thread = m;
            })
    pre_exec :
        (app : AndroidApp) (m : MainThread) (cmd : Option Cmd)
        → AppStep
            (record { app = app; app_thread = read_done cmd; main_thread = m })
            (record {
              app = android_app_pre_exec_cmd asset_config cmd app;
              app_thread = pre_done cmd;
              main_thread = m;
            })
    call :
        (app : AndroidApp) (m : MainThread) (cmd : Option Cmd)
        → AppStep
            (record { app = app; app_thread = pre_done cmd; main_thread = m })
            (record {
              app = call_on_app_cmd on_app_cmd cmd app;
              app_thread = call_done cmd;
              main_thread = m;
            })
    post_exec :
        (app : AndroidApp) (m : MainThread) (cmd : Option Cmd)
        → AppStep
            (record { app = app; app_thread = call_done cmd; main_thread = m })
            (record {
              app = android_app_post_exec_cmd cmd app;
              app_thread = polling;
              main_thread = m;
            })
    exit :
        (app : AndroidApp) (m : MainThread)
        → app.destroy_requested ≡ true
        → AppStep
            (record { app = app; app_thread = polling; main_thread = m })
            (record { app = android_app_destroy app; app_thread = ended; main_thread = m })

  -- A step of either thread. Every write to the pipe succeeds.
  pub data Step : Glue → Glue → Type 0 where
    app_step : {g h : Glue} → AppStep g h → Step g h
    thread_started :
        (app : AndroidApp) (t : AppThread)
        → app.running ≡ true
        → Step
            (record { app = app; app_thread = t; main_thread = creating })
            (record { app = app; app_thread = t; main_thread = free })
    callback :
        (app : AndroidApp) (t : AppThread) (c : Callback)
        → Step
            (record { app = app; app_thread = t; main_thread = free })
            (record { app = request every_cmd c app; app_thread = t; main_thread = waiting c })
    wake :
        (app : AndroidApp) (t : AppThread) (c : Callback)
        → waits c app ≡ false
        → Step
            (record { app = app; app_thread = t; main_thread = waiting c })
            (record { app = (finish c app).1; app_thread = t; main_thread = after c })

  -- The states that a run can reach.
  pub data Reachable : Glue → Type 0 where
    begin :
        (saved_state : Option Bytes) (app : AndroidApp)
        → android_app_create true saved_state ≡ some app
        → Reachable (record { app = app; app_thread = created; main_thread = creating })
    then_step : {g h : Glue} → Reachable g → Step g h → Reachable h

  -- Steps of the application's thread alone.
  pub data AppSteps : Glue → Glue → Type 0 where
    here : {g : Glue} → AppSteps g g
    next : {g h k : Glue} → AppStep g h → AppSteps h k → AppSteps g k
