-- ===== src/NativeAppGlue/Threads/Invariant.antt =====
-- What holds between the two threads of android_native_app_glue.c in every state of a run.
use ndk.Base.{ℕ, ◌≡◌, refl, ap, sym, ◌∙◌, Bool, true, false, Option, some, List, ◌∷◌, arith}
use ndk.NativeAppGlue.{
  Cmd, save_state, app_cmd, AndroidApp, OnAppCmd, free_saved_state, free_before,
  android_app_read_cmd, android_app_entry, android_app_destroy,
}
use ndk.NativeAppGlue.Callbacks.{ActivityState, state_cmd, on_destroy, on_save, on_state}
use ndk.NativeAppGlue.Threads.{
  AppThread, created, polling, ended, read_done, MainThread, freed, waiting, Glue, AppStep, entry,
  read, pre_exec, call, post_exec, exit,
}
use ndk.NativeAppGlue.Threads.Settled.{
  Phase, call_phase, settled, window_effect, input_effect, state_effect, saved_effect,
  request_effect, Acts, Moves, stays, pre_moves, call_moves, post_moves, settled-act,
  android_app_pre_exec_cmd-Acts, call_on_app_cmd-Acts, android_app_post_exec_cmd-Acts,
}

-- The last callback has been called.
abbrev pub leaving : MainThread → Bool
leaving (waiting on_destroy) = true
leaving freed = true
leaving _ = false

abbrev pub is_ended : AppThread → Bool
is_ended ended = true
is_ended _ = false

-- When the commands under way are processed, each field will be what the last callback asked for.
pub record Handshake (app : AndroidApp) (t : AppThread) (m : MainThread) : Type 0 where
  pub window :
      settled (window_effect app.pending_window) t app.msgpipe app.window ≡ app.pending_window
  pub input :
      settled (input_effect app.pending_input_queue) t app.msgpipe app.input_queue
      ≡ app.pending_input_queue
  pub state :
      (s : ActivityState)
      → m ≡ waiting (on_state s)
      → settled state_effect t app.msgpipe app.activity_state ≡ app_cmd (state_cmd s)
  pub saved : m ≡ waiting on_save → settled saved_effect t app.msgpipe app.state_saved ≡ true
  pub requested : settled request_effect t app.msgpipe app.destroy_requested ≡ leaving m
  pub quits : is_ended t ≡ true → app.destroy_requested ≡ true
  pub destroyed : app.destroyed ≡ is_ended t

Moves-is_ended :
    {phase : Phase} {c : Option Cmd} {t t' : AppThread}
    → Moves phase c t t'
    → is_ended t ≡ false
    → is_ended t' ≡ false
Moves-is_ended (stays c t) e = e
Moves-is_ended (pre_moves c) e = e
Moves-is_ended (call_moves c) e = e
Moves-is_ended (post_moves c) e = e

-- A call of the application's thread.
pub Handshake-Acts :
    {phase : Phase} {c : Option Cmd} {app app' : AndroidApp} {t t' : AppThread} {m : MainThread}
    → Handshake app t m
    → is_ended t ≡ false
    → Acts phase c app app'
    → Moves phase c t t'
    → Handshake app' t' m
Handshake-Acts {app = app} {app' = app'} {t' = t'} i going a v = record {
  window =
      ap (λ p. settled (window_effect p) t' app'.msgpipe app'.window) a.pending_window
      ∙ rw (a.window, a.msgpipe)
          (settled-act (window_effect app.pending_window) app.msgpipe app.window v ∙ i.window)
      ∙ sym a.pending_window;
  input =
      ap (λ p. settled (input_effect p) t' app'.msgpipe app'.input_queue) a.pending_input
      ∙ rw (a.input, a.msgpipe)
          (settled-act (input_effect app.pending_input_queue) app.msgpipe app.input_queue v
            ∙ i.input)
      ∙ sym a.pending_input;
  state = λ s e.
      rw (a.state, a.msgpipe)
        (settled-act state_effect app.msgpipe app.activity_state v ∙ i.state s e);
  saved = λ e.
      rw (a.saved, a.msgpipe) (settled-act saved_effect app.msgpipe app.state_saved v ∙ i.saved e);
  requested =
      rw (a.requested, a.msgpipe)
        (settled-act request_effect app.msgpipe app.destroy_requested v ∙ i.requested);
  quits = λ e. ground (arith, Moves-is_ended v going);
  destroyed = a.destroyed ∙ i.destroyed ∙ going ∙ sym (Moves-is_ended v going);
}

pub android_app_read_cmd-eq :
    (app : AndroidApp) (cmd : Cmd) (rest : List Cmd)
    → app.msgpipe ≡ cmd ∷ rest
    → android_app_read_cmd app ≡ (some cmd, free_before cmd (record app { msgpipe = rest }))
unfolding android_app_read_cmd
android_app_read_cmd-eq app cmd rest e = rw (e, android_app_read_cmd) refl

pub free_before-Acts :
    (c : Option Cmd) (cmd : Cmd) (app : AndroidApp) → Acts call_phase c app (free_before cmd app)
unfolding free_saved_state
free_before-Acts c save_state app = record {
  window = refl;
  input = refl;
  state = refl;
  saved = refl;
  requested = refl;
  pending_window = refl;
  pending_input = refl;
  msgpipe = refl;
  destroyed = refl;
}
free_before-Acts c _ app = record {
  window = refl;
  input = refl;
  state = refl;
  saved = refl;
  requested = refl;
  pending_window = refl;
  pending_input = refl;
  msgpipe = refl;
  destroyed = refl;
}

-- The command moves from the pipe to the thread.
Handshake-pop :
    (app : AndroidApp) (m : MainThread) (cmd : Cmd) (rest : List Cmd)
    → app.msgpipe ≡ cmd ∷ rest
    → Handshake app polling m
    → Handshake (record app { msgpipe = rest }) (read_done (some cmd)) m
Handshake-pop app m cmd rest e i = record {
  window =
      ap (λ cs. settled (window_effect app.pending_window) polling cs app.window) (sym e)
      ∙ i.window;
  input =
      ap (λ cs. settled (input_effect app.pending_input_queue) polling cs app.input_queue) (sym e)
      ∙ i.input;
  state =
      λ s h. ap (λ cs. settled state_effect polling cs app.activity_state) (sym e) ∙ i.state s h;
  saved = λ h. ap (λ cs. settled saved_effect polling cs app.state_saved) (sym e) ∙ i.saved h;
  requested =
      ap (λ cs. settled request_effect polling cs app.destroy_requested) (sym e) ∙ i.requested;
  quits = λ h. i.quits h;
  destroyed = i.destroyed;
}

Handshake-read :
    (app : AndroidApp) (m : MainThread) (cmd : Cmd) (rest : List Cmd)
    → app.msgpipe ≡ cmd ∷ rest
    → Handshake app polling m
    → Handshake (android_app_read_cmd app).1 (read_done (android_app_read_cmd app).0) m
Handshake-read app m cmd rest e i = rw (android_app_read_cmd-eq app cmd rest e) (
    Handshake-Acts (Handshake-pop app m cmd rest e i) refl
      (free_before-Acts (some cmd) cmd (record app { msgpipe = rest }))
      (stays (some cmd) (read_done (some cmd))))

Handshake-entry :
    (asset_config : ℕ) (app : AndroidApp) (m : MainThread)
    → Handshake app created m
    → Handshake (android_app_entry asset_config app) polling m
unfolding android_app_entry
Handshake-entry asset_config app m i = record {
  window = i.window;
  input = i.input;
  state = i.state;
  saved = i.saved;
  requested = i.requested;
  quits = i.quits;
  destroyed = i.destroyed;
}

Handshake-exit :
    (app : AndroidApp) (m : MainThread)
    → app.destroy_requested ≡ true
    → Handshake app polling m
    → Handshake (android_app_destroy app) ended m
unfolding android_app_destroy free_saved_state
Handshake-exit app m e i = record {
  window = i.window;
  input = i.input;
  state = i.state;
  saved = i.saved;
  requested = i.requested;
  quits = λ _. e;
  destroyed = refl;
}

module _ (asset_config : ℕ) (on_app_cmd : OnAppCmd) where
  pub AppStep-Handshake :
      {g h : Glue}
      → AppStep asset_config on_app_cmd g h
      → Handshake g.app g.app_thread g.main_thread
      → Handshake h.app h.app_thread h.main_thread
  AppStep-Handshake (entry app m) i = Handshake-entry asset_config app m i
  AppStep-Handshake (read app m cmd rest e) i = Handshake-read app m cmd rest e i
  AppStep-Handshake (pre_exec app m cmd) i =
      Handshake-Acts i refl (android_app_pre_exec_cmd-Acts asset_config cmd app) (pre_moves cmd)
  AppStep-Handshake (call app m cmd) i =
      Handshake-Acts i refl (call_on_app_cmd-Acts on_app_cmd cmd app) (call_moves cmd)
  AppStep-Handshake (post_exec app m cmd) i =
      Handshake-Acts i refl (android_app_post_exec_cmd-Acts cmd app) (post_moves cmd)
  AppStep-Handshake (exit app m e) i = Handshake-exit app m e i
