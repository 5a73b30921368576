-- ===== src/NativeAppGlue/Input.antt =====
-- `process_input` of android_native_app_glue.c. The application's state and its input queue are a
-- type that is a parameter: each call of the queue, and `onInputEvent`, may change it.
use ndk.Base.{
  ℕ, zero, suc, ◌≤◌, ◌<◌, ◌≡◌, refl, ap, ◌∙◌, Bool, true, false, not, ◌&&◌, Option, none, some,
  List, [], ◌∷◌, ◌++◌, ◌==◌, ==_refl, arith,
}
use ndk.Base.Checked.{Checked, ok, out_of_fuel, ◌>>=◌}

-- The calls with their results, in their order: an event that AInputQueue_getEvent gives, one that
-- AInputQueue_preDispatchEvent takes, what `onInputEvent` returns for one, and the arguments of
-- AInputQueue_finishEvent.
pub data InputCall : Type 0 where
  got taken : ℕ → InputCall
  handled finished : ℕ → ℕ → InputCall

-- AInputQueue_getEvent gives `none` where its result is negative.
pub record InputQueue (W : Type 0) : Type 0 where
  pub get_event : W → Option ℕ × W
  pub pre_dispatch_event : ℕ → W → Bool × W
  pub finish_event : ℕ → ℕ → W → W

-- `onInputEvent`, which may be NULL. It stays the same during the loop.
abbrev pub OnInputEvent : Type 0 → Type 0
OnInputEvent W = Option (ℕ → W → ℕ × W)

module _ {W : Type 0} (queue : InputQueue W) where
  abbrev pub finish_with : ℕ → ℕ × W → List InputCall × W
  finish_with event (code, w) = (finished event code ∷ [], queue.finish_event event code w)

  abbrev pub handle_finish : ℕ → ℕ × W → List InputCall × W
  handle_finish event (code, w) =
      let (calls, w') = finish_with event (code, w) in (handled event code ∷ calls, w')

  abbrev pub handle : OnInputEvent W → ℕ → W → List InputCall × W
  handle none event w = finish_with event (0, w)
  handle (some on_input) event w = handle_finish event (on_input event w)

module _ {W : Type 0} (queue : InputQueue W) (on_input_event : OnInputEvent W) where
  -- Behind AInputQueue_preDispatchEvent.
  abbrev pub dispatched : ℕ → Bool × W → List InputCall × W
  dispatched event (true, w) = (taken event ∷ [], w)
  dispatched event (false, w) = handle queue on_input_event event w

  -- The `while` loop, on fuel.
  unfoldable pub process_input : ℕ → W → Checked (List InputCall × W)
  process_input zero w = out_of_fuel
  process_input (suc f) w =
      let (next, w') = queue.get_event w in
      elim next [
        | none ↦ ok ([], w')
        | some event ↦
            let (calls, w'') = dispatched event (queue.pre_dispatch_event event w') in
            process_input f w'' >>= λ (later, last). ok (got event ∷ (calls ++ later), last)
      ]

-- Between two events, behind one that was got, and behind its handler with the result.
pub data Phase : Type 0 where
  idle : Phase
  given : ℕ → Phase
  returned : ℕ → ℕ → Phase

-- What is to happen to an event before the next one is got: it is taken before dispatch and nothing
-- else, or handled and then finished with the handler's result, or, where there is no handler,
-- finished with 0.
abbrev pub answers : Bool → Phase → List InputCall → Bool
answers has_handler idle [] = true
answers has_handler idle (got event ∷ calls) = answers has_handler (given event) calls
answers has_handler (given event) (taken event' ∷ calls) =
    event == event' && answers has_handler idle calls
answers has_handler (given event) (handled event' code ∷ calls) =
    has_handler && (event == event' && answers has_handler (returned event code) calls)
answers has_handler (given event) (finished event' code ∷ calls) =
    not has_handler && (event == event' && (code == 0 && answers has_handler idle calls))
answers has_handler (returned event code) (finished event' code' ∷ calls) =
    event == event' && (code == code' && answers has_handler idle calls)
answers has_handler phase calls = false

abbrev pub is_there {ℓ} : {A : Type ℓ} → Option A → Bool
is_there none = false
is_there (some a) = true

module _ {W : Type 0} (queue : InputQueue W) (on_input_event : OnInputEvent W) where
  -- The queue runs empty: some number falls with each event that it gives, and does not rise
  -- while an event is processed.
  pub record Drains (left : W → ℕ) : Type 0 where
    pub got_event : (w w' : W) (event : ℕ) → queue.get_event w ≡ (some event, w') → left w' < left w
    pub pre_dispatched : (event : ℕ) (w : W) → left (queue.pre_dispatch_event event w).1 ≤ left w
    pub finished_event : (event code : ℕ) (w : W) → left (queue.finish_event event code w) ≤ left w
    pub handled_event :
        (on_input : ℕ → W → ℕ × W)
        → on_input_event ≡ some on_input
        → (event : ℕ) (w : W) → left (on_input event w).1 ≤ left w

  -- An event is answered before the calls that follow.
  handle-answers :
      (handler : OnInputEvent W) (event : ℕ) (w : W) (later : List InputCall)
      → answers (is_there handler) (given event) ((handle queue handler event w).0 ++ later)
        ≡ answers (is_there handler) idle later
  handle-answers none event w later = rw (==_refl event) refl
  handle-answers (some on_input) event w later =
      let code = (on_input event w).0 in rw (==_refl event, ==_refl code) refl

  dispatched-answers :
      (event : ℕ) (r : Bool × W) (later : List InputCall)
      → answers
          (is_there on_input_event)
          (given event)
          ((dispatched queue on_input_event event r).0 ++ later)
        ≡ answers (is_there on_input_event) idle later
  dispatched-answers event (true, w) later = rw (==_refl event) refl
  dispatched-answers event (false, w) later = handle-answers on_input_event event w later

  -- The loop returns; its calls answer each event before the next one is got, and the queue gave
  -- none at its end.
  abbrev pub Answered : Checked (List InputCall × W) → Type 0
  Answered result =
      (calls : List InputCall) × (last : W) × (result ≡ ok (calls, last))
      × (answers (is_there on_input_event) idle calls ≡ true)
      × (w : W) × (queue.get_event w ≡ (none, last))

  module _ (left : W → ℕ) (drains : Drains left) where
    handle-left :
        (handler : OnInputEvent W) (event : ℕ) (w : W)
        → on_input_event ≡ handler
        → left (handle queue handler event w).1 ≤ left w
    handle-left none event w e = drains.finished_event event 0 w
    handle-left (some on_input) event w e =
        let (code, w') = on_input event w in
        omega (arith, drains.finished_event event code w', drains.handled_event on_input e event w)

    dispatched-left :
        (event : ℕ) (w : W) (r : Bool × W)
        → left r.1 ≤ left w
        → left (dispatched queue on_input_event event r).1 ≤ left w
    dispatched-left event w (true, w') h = h
    dispatched-left event w (false, w') h =
        omega (arith, h, handle-left on_input_event event w' refl)

    process_input-step :
        (f : ℕ) (w : W) (r : Option ℕ × W)
        → queue.get_event w ≡ r
        → left w < suc f
        → ((w' : W) → left w' < f → Answered (process_input queue on_input_event f w'))
        → Answered (process_input queue on_input_event (suc f) w)
    unfolding process_input
    process_input-step f w (none, w') e enough ih =
        let e0 : (queue.get_event w).0 ≡ none = ap (λ p. p.0) e in
        let e1 : (queue.get_event w).1 ≡ w' = ap (λ p. p.1) e in
        ([], w', rw (e0, process_input) (ap (λ v. ok ([], v)) e1), refl, w, e)
    process_input-step f w (some event, w') e enough ih =
        let pre = queue.pre_dispatch_event event w' in
        let fewer = dispatched-left event w' pre (drains.pre_dispatched event w') in
        let (later, last, returns, right, at_end, none_left) =
          ih (dispatched queue on_input_event event pre).1
            (omega (arith, fewer, drains.got_event w w' event e)) in
        (
          got event ∷ ((dispatched queue on_input_event event pre).0 ++ later),
          last,
          rw (ap (λ p. p.0) e, process_input) (rw (ap (λ p. p.1) e) (rw returns refl)),
          dispatched-answers event pre later ∙ right,
          at_end,
          none_left,
        )

    -- Let the queue run empty. With a round for each event that is left and one more, the loop
    -- returns, when the queue gives no event. Each event that the queue gives is answered before
    -- the next one is got: it is taken before dispatch, and neither handled nor finished; or the
    -- application's handler gets it once, and it is finished once and with what the handler
    -- returned; or, where there is no handler, it is finished once and with 0. No other event is
    -- finished.
    pub process_input-Answered :
        (f : ℕ) (w : W) → left w < f → Answered (process_input queue on_input_event f w)
    process_input-Answered zero w enough = absurd (omega arith)
    process_input-Answered (suc f) w enough =
        process_input-step f w (queue.get_event w) refl enough (process_input-Answered f)
