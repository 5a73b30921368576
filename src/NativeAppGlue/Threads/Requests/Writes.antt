-- ===== src/NativeAppGlue/Threads/Requests/Writes.antt =====
-- Writing commands to the pipe of android_native_app_glue.c keeps what holds between the threads.
use ndk.Base.{
  ◌≡◌, ◌≢◌, refl, ap, sym, ◌∙◌, true, false, none, some, [], ◌∷◌, ◌++◌, inl, inr, Option-cases,
}
use mathlib.Core.Path.{subst}
use ndk.NativeAppGlue.{
  Cmd, input_changed, init_window, term_window, app_cmd, Handle, AndroidApp, android_app_write_cmd,
  android_app_set_input, android_app_set_window,
}
use ndk.NativeAppGlue.Callbacks.{ActivityState, state_cmd, Callback, on_save, on_state}
use ndk.NativeAppGlue.Threads.{AppThread, MainThread, free, waiting, every_cmd}
use ndk.NativeAppGlue.Threads.Settled.{
  left, after_all, settled, after_all-append, window_effect, input_effect, state_effect,
  saved_effect, request_effect,
}
use ndk.NativeAppGlue.Threads.Invariant.{leaving, Handshake}

-- A command is written, with the requests for the window and the input queue that go with it.
pub Handshake-write :
    (app : AndroidApp) (t : AppThread) (m m' : MainThread) (cmd : Cmd) (window queue : Handle)
    → Handshake app t m
    → after_all
        (window_effect window)
        (cmd ∷ [])
        (settled (window_effect window) t app.msgpipe app.window)
      ≡ window
    → after_all
        (input_effect queue)
        (cmd ∷ [])
        (settled (input_effect queue) t app.msgpipe app.input_queue)
      ≡ queue
    → ((s : ActivityState)
        → m' ≡ waiting (on_state s)
        → after_all state_effect (cmd ∷ []) (settled state_effect t app.msgpipe app.activity_state)
          ≡ app_cmd (state_cmd s))
    → (m' ≡ waiting on_save
        → after_all saved_effect (cmd ∷ []) (settled saved_effect t app.msgpipe app.state_saved)
          ≡ true)
    → after_all request_effect (cmd ∷ []) (leaving m) ≡ leaving m'
    → Handshake
        (record app {
          pending_window = window;
          pending_input_queue = queue;
          msgpipe = app.msgpipe ++ cmd ∷ [];
        })
        t
        m'
Handshake-write app t m m' cmd window queue i w q s v r = record {
  window =
      after_all-append (window_effect window) app.msgpipe cmd
        (left (window_effect window) t app.window)
      ∙ w;
  input =
      after_all-append (input_effect queue) app.msgpipe cmd
        (left (input_effect queue) t app.input_queue)
      ∙ q;
  state = λ state e.
      after_all-append state_effect app.msgpipe cmd (left state_effect t app.activity_state)
      ∙ s state e;
  saved = λ e.
      after_all-append saved_effect app.msgpipe cmd (left saved_effect t app.state_saved) ∙ v e;
  requested =
      after_all-append request_effect app.msgpipe cmd (left request_effect t app.destroy_requested)
      ∙ ap (after_all request_effect (cmd ∷ [])) i.requested
      ∙ r;
  quits = i.quits;
  destroyed = i.destroyed;
}

-- A callback that waits neither for a state nor for the saved state, and is not the last.
pub record IsPlain (c : Callback) : Type 0 where
  pub state : (s : ActivityState) → waiting c ≢ waiting (on_state s)
  pub saved : waiting c ≢ waiting on_save
  pub leaving : leaving (waiting c) ≡ false

pub Handshake-input :
    (app : AndroidApp) (t : AppThread) (c : Callback) (queue : Handle)
    → Handshake app t free
    → IsPlain c
    → Handshake (android_app_set_input every_cmd queue app) t (waiting c)
unfolding android_app_set_input android_app_write_cmd
Handshake-input app t c queue i p =
    Handshake-write app t free (waiting c) input_changed app.pending_window queue i i.window refl
      (λ state e. absurd (p.state state e)) (λ e. absurd (p.saved e)) (sym p.leaving)

-- Where there was a window, it is given up first.
Handshake-give_up :
    (app : AndroidApp) (t : AppThread)
    → Handshake app t free
    → Handshake
        (record app { pending_window = none; msgpipe = app.msgpipe ++ term_window ∷ [] })
        t
        free
Handshake-give_up app t i =
    Handshake-write app t free free term_window none app.pending_input_queue i refl i.input
      (λ state e. cc) (λ e. cc) refl

Handshake-init :
    (app : AndroidApp) (t : AppThread) (c : Callback) (window : Handle)
    → Handshake app t free
    → IsPlain c
    → Handshake
        (record app { pending_window = window; msgpipe = app.msgpipe ++ init_window ∷ [] })
        t
        (waiting c)
Handshake-init app t c window i p =
    Handshake-write app t free (waiting c) init_window window app.pending_input_queue i refl i.input
      (λ state e. absurd (p.state state e)) (λ e. absurd (p.saved e)) (sym p.leaving)

Handshake-wait :
    (app : AndroidApp) (t : AppThread) (c : Callback)
    → Handshake app t free
    → IsPlain c
    → Handshake app t (waiting c)
Handshake-wait app t c i p = record {
  window = i.window;
  input = i.input;
  state = λ s e. absurd (p.state s e);
  saved = λ e. absurd (p.saved e);
  requested = i.requested ∙ sym p.leaving;
  quits = i.quits;
  destroyed = i.destroyed;
}

-- A request for the window that is asked for already changes nothing.
Handshake-same :
    (app : AndroidApp) (t : AppThread) (window : Handle)
    → app.pending_window ≡ window
    → Handshake app t free
    → Handshake (record app { pending_window = window }) t free
Handshake-same app t window e i = record {
  window = subst (λ p. settled (window_effect p) t app.msgpipe app.window ≡ p) e i.window;
  input = i.input;
  state = λ s h. i.state s h;
  saved = λ h. i.saved h;
  requested = i.requested;
  quits = i.quits;
  destroyed = i.destroyed;
}

pub Handshake-window :
    (app : AndroidApp) (t : AppThread) (c : Callback) (window : Handle)
    → Handshake app t free
    → IsPlain c
    → Handshake (android_app_set_window every_cmd window app) t (waiting c)
unfolding android_app_set_window android_app_write_cmd
Handshake-window app t c none i p = elim (Option-cases app.pending_window) [
  | inl e ↦
      rw (e, android_app_set_window)
        (Handshake-wait (record app { pending_window = none }) t c (Handshake-same app t none e i)
          p)
  | inr (w, e) ↦
      rw (e, android_app_set_window)
        (Handshake-wait
          (record app { pending_window = none; msgpipe = app.msgpipe ++ term_window ∷ [] }) t c
          (Handshake-give_up app t i) p)
]
Handshake-window app t c (some window) i p = elim (Option-cases app.pending_window) [
  | inl e ↦ rw (e, android_app_set_window) (Handshake-init app t c (some window) i p)
  | inr (w, e) ↦
      rw (e, android_app_set_window)
        (Handshake-init
          (record app { pending_window = none; msgpipe = app.msgpipe ++ term_window ∷ [] }) t c
          (some window) (Handshake-give_up app t i) p)
]
