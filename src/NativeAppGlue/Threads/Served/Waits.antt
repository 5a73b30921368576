-- ===== src/NativeAppGlue/Threads/Served/Waits.antt =====
-- When a wait of a callback of android_native_app_glue.c is over, with no command under way.
use ndk.Base.{◌≡◌, ◌≢◌, refl, ap, sym, ◌∙◌, true, false, not, none, some, List, [], ◌∷◌, ==_refl}
use mathlib.Core.Path.{subst}
use ndk.NativeAppGlue.{Cmd, destroy, app_cmd, Handle, same, AndroidApp, android_app_read_cmd}
use ndk.NativeAppGlue.Callbacks.{
  Callback, on_destroy, on_save, on_configuration_changed, on_low_memory, on_state,
  on_window_focus_changed, on_native_window_created, on_native_window_destroyed,
  on_input_queue_created, on_input_queue_destroyed, state_cmd, waits,
}
use ndk.NativeAppGlue.Threads.{polling, ended, MainThread, waiting}
use ndk.NativeAppGlue.Threads.Settled.{
  after_all, window_effect, input_effect, state_effect, saved_effect, request_effect,
}
use ndk.NativeAppGlue.Threads.Invariant.{
  leaving, Handshake, android_app_read_cmd-eq, free_before-Acts,
}

same_refl : (a : Handle) → same a a ≡ true
same_refl none = refl
same_refl (some a) = ==_refl a

same-eq : (a b : Handle) → a ≡ b → not (same a b) ≡ false
same-eq a b e = rw (e, same_refl b) refl

false-ne-true : false ≢ true
false-ne-true e = cc

-- A wait has ended, but for that of the last callback, which has been asked for.
abbrev pub Answered : Callback → AndroidApp → Type 0
Answered on_destroy app = app.destroy_requested ≡ true
Answered c app = waits c app ≡ false

-- Where no command is under way.
pub polling-Answered :
    (app : AndroidApp) (c : Callback)
    → Handshake app polling (waiting c)
    → app.msgpipe ≡ []
    → Answered c app
unfolding waits
polling-Answered app on_destroy i e =
    subst (λ cs. after_all request_effect cs app.destroy_requested ≡ true) e i.requested
polling-Answered app on_save i e =
    ap not (subst (λ cs. after_all saved_effect cs app.state_saved ≡ true) e (i.saved refl))
polling-Answered app on_configuration_changed i e = refl
polling-Answered app on_low_memory i e = refl
polling-Answered app (on_state s) i e =
    let asked : app.activity_state ≡ app_cmd (state_cmd s) =
      subst (λ cs. after_all state_effect cs app.activity_state ≡ app_cmd (state_cmd s)) e
        (i.state s refl) in
    rw (asked, ==_refl (app_cmd (state_cmd s))) refl
polling-Answered app (on_window_focus_changed focused) i e = refl
polling-Answered app (on_native_window_created window) i e = same-eq app.window app.pending_window (
    subst (λ cs. after_all (window_effect app.pending_window) cs app.window ≡ app.pending_window) e
      i.window)
polling-Answered app on_native_window_destroyed i e = same-eq app.window app.pending_window (
    subst (λ cs. after_all (window_effect app.pending_window) cs app.window ≡ app.pending_window) e
      i.window)
polling-Answered app (on_input_queue_created queue) i e =
    same-eq app.input_queue app.pending_input_queue (
      subst
        (λ cs.
          after_all (input_effect app.pending_input_queue) cs app.input_queue
          ≡ app.pending_input_queue)
        e i.input)
polling-Answered app on_input_queue_destroyed i e =
    same-eq app.input_queue app.pending_input_queue (
      subst
        (λ cs.
          after_all (input_effect app.pending_input_queue) cs app.input_queue
          ≡ app.pending_input_queue)
        e i.input)

after_all-requested : (cs : List Cmd) → after_all request_effect cs true ≡ true
after_all-requested [] = refl
after_all-requested (destroy ∷ cs) = after_all-requested cs
after_all-requested (_ ∷ cs) = after_all-requested cs

-- The thread is at its end only in the last callback.
ended-leaving : (app : AndroidApp) (m : MainThread) → Handshake app ended m → leaving m ≡ true
ended-leaving app m i =
    sym i.requested
    ∙ ap (after_all request_effect app.msgpipe) (i.quits refl)
    ∙ after_all-requested app.msgpipe

pub ended-waits :
    (app : AndroidApp) (c : Callback) → Handshake app ended (waiting c) → waits c app ≡ false
unfolding waits
ended-waits app on_destroy i = ap not i.destroyed
ended-waits app _ i = absurd (false-ne-true (ended-leaving app _ i))

pub read-msgpipe :
    (app : AndroidApp) (cmd : Cmd) (rest : List Cmd)
    → app.msgpipe ≡ cmd ∷ rest
    → ((android_app_read_cmd app).1).msgpipe ≡ rest
read-msgpipe app cmd rest e =
    rw (android_app_read_cmd-eq app cmd rest e)
      (free_before-Acts none cmd (record app { msgpipe = rest })).msgpipe
