-- ===== src/GlContext/Steps.antt =====
-- The steps of an object of GLContext.cpp.
use ndk.Base.{ℕ, Bool, true, false, ◌||◌, [], ◌∷◌, ◌==◌, ◌≡◌, refl, ◌∙◌, sym}
use ndk.GlContext.{
  swap_buffers, swap_failed, egl_bad_surface, egl_context_lost, egl_bad_context, create_context,
  Egl, GlContext, called, constructed, make_current, get_error, get_display, initialize,
  context_destroyed, first_choice, choose_config, chosen, init_egl_surface, init_egl_context, init,
  terminate, swap_error, swap, resume_current, resume_error, resume, suspend, invalidate,
}
use ndk.GlContext.Live.{held, open_surfaces, open_contexts, NeedsDisplay, IsHeld, if-cases}
use ndk.GlContext.Kept.{init-IsHeld, suspend-IsHeld, swap-IsHeld, invalidate-IsHeld, resume-IsHeld}

-- Nothing is held before `Init`.
abbrev pub IsUnset : GlContext → Type 0
IsUnset g = g.egl_context_initialized ≡ false → (g.surface ≡ 0) × (g.context ≡ 0)

clash {ℓ} : {A : Type ℓ} {b : Bool} → b ≡ true → b ≡ false → A
clash h k = cc

module _ (egl : Egl) where
  -- The methods in any order, with any answers of EGL but two: eglSwapBuffers does not fail for a
  -- bad surface, and eglMakeCurrent in `Resume` not for a lost context. `Resume` is called with no
  -- surface.
  pub data Step : GlContext → GlContext → Type 0 where
    inits : (window : ℕ) (g : GlContext) → Step g (init egl window g).1
    swapped :
        (g : GlContext) → (swap_error egl g == egl_bad_surface) ≡ false → Step g (swap egl g).1
    suspended : (g : GlContext) → Step g (suspend g)
    resumes :
        (window : ℕ) (g : GlContext)
        → g.surface ≡ 0
        → (resume_error egl window g == egl_context_lost) ≡ false
        → Step g (resume egl window g).1
    invalidated : (g : GlContext) → Step g (invalidate g).1

  pub data Reachable : GlContext → Type 0 where
    created : (g : GlContext) → Reachable (constructed (record g { calls = [] }))
    behind : {g g' : GlContext} → Reachable g → Step g g' → Reachable g'

  init_egl_context-flag :
      (g : GlContext)
      → (init_egl_context egl g).1.egl_context_initialized ≡ g.egl_context_initialized
  unfolding init_egl_context
  init_egl_context-flag g =
      let c = egl.context_of g.calls g.display in
      if-cases (λ (r : Bool × GlContext). r.1.egl_context_initialized ≡ g.egl_context_initialized)
        (egl.makes_current (create_context g.display c ∷ g.calls)) _ _ (λ current. refl)
        (λ failed. refl)

  first_choice-flag :
      (g : GlContext)
      → (first_choice egl (chosen egl 24 g)).1.egl_context_initialized ≡ g.egl_context_initialized
  first_choice-flag g =
      let P : Bool × GlContext → Type 0 =
        λ r. r.1.egl_context_initialized ≡ g.egl_context_initialized in
      if-cases P (egl.num_configs g.calls 24 == 0) _ _
        (λ none.
          if-cases P (egl.num_configs (choose_config g.display 24 ∷ g.calls) 16 == 0) _ _
            (λ none_again. refl) (λ some. refl))
        (λ some. refl)

  init_egl_surface-flag :
      (g : GlContext)
      → (init_egl_surface egl g).1.egl_context_initialized ≡ g.egl_context_initialized
  unfolding init_egl_surface
  init_egl_surface-flag g =
      let d = egl.display_of g.calls in
      first_choice-flag
        (record g { display = d; color_size = 8; calls = initialize d ∷ get_display d ∷ g.calls })

  terminate-flag :
      (g : GlContext) → (terminate g).egl_context_initialized ≡ g.egl_context_initialized
  unfolding terminate
  terminate-flag g =
      let P : GlContext → Type 0 = λ g'. g'.egl_context_initialized ≡ g.egl_context_initialized in
      if-cases P (g.display == 0) _ _ (λ none. refl)
        (λ there.
          if-cases P ((context_destroyed (called (make_current g.display 0 0) g)).surface == 0) _ _
            (λ no_surface. without_context) (λ surface. without_context))
    where
      without_context :
          (context_destroyed (called (make_current g.display 0 0) g)).egl_context_initialized
          ≡ g.egl_context_initialized
      without_context =
          if-cases (λ (g' : GlContext). g'.egl_context_initialized ≡ g.egl_context_initialized)
            (g.context == 0) _ _ (λ none. refl) (λ some. refl)

  module _ (needs : NeedsDisplay egl) where
    Step-IsHeld : {g g' : GlContext} → Step g g' → IsHeld g → IsUnset g → IsHeld g'
    Step-IsHeld (inits window g) h u = init-IsHeld egl needs window g h u
    Step-IsHeld (swapped g other) h u = swap-IsHeld egl needs g h other
    Step-IsHeld (suspended g) h u = suspend-IsHeld egl needs g h
    Step-IsHeld (resumes window g z other) h u = resume-IsHeld egl needs window g h z u other
    Step-IsHeld (invalidated g) h u = invalidate-IsHeld egl needs g h

    init-IsUnset : (window : ℕ) (g : GlContext) → IsUnset g → IsUnset (init egl window g).1
    unfolding init
    init-IsUnset window g u =
        if-cases (λ (r : Bool × GlContext). IsUnset r.1) g.egl_context_initialized _ _ (λ done. u)
          (λ first e. cc)

    suspend-IsUnset : (g : GlContext) → IsUnset g → IsUnset (suspend g)
    unfolding suspend
    suspend-IsUnset g u =
        if-cases IsUnset (g.surface == 0) _ _ (λ none. u) (λ some e. (refl, (u e).1))

    invalidate-IsUnset : (g : GlContext) → IsUnset (invalidate g).1
    unfolding invalidate terminate
    invalidate-IsUnset g e = (refl, refl)

    -- Behind `Terminate` there is no display, and no context is made.
    init_egl_context-none :
        (g : GlContext)
        → g.display ≡ 0
        → g.surface ≡ 0
        → ((init_egl_context egl g).1.surface ≡ 0) × ((init_egl_context egl g).1.context ≡ 0)
    unfolding init_egl_context
    init_egl_context-none g d s =
        let none : egl.context_of g.calls g.display ≡ 0 = rw d (needs g.calls).1 in
        if-cases (λ (r : Bool × GlContext). (r.1.surface ≡ 0) × (r.1.context ≡ 0))
          (egl.makes_current
            (create_context g.display (egl.context_of g.calls g.display) ∷ g.calls))
          _ _ (λ current. (s, none)) (λ failed. (s, none))

    swap_failed-IsUnset :
        (err : ℕ) (g : GlContext)
        → (err == egl_bad_surface) ≡ false
        → IsUnset g
        → IsUnset (swap_failed egl err g).1
    unfolding terminate
    swap_failed-IsUnset err g good u =
        let P : ℕ × GlContext → Type 0 = λ r. IsUnset r.1 in
        if-cases P (err == egl_bad_surface) _ _ (λ bad. clash bad good)
          (λ other.
            if-cases P (err == egl_context_lost || err == egl_bad_context) _ _
              (λ lost e.
                init_egl_context-none (terminate (record g { context_valid = false })) refl refl)
              (λ alive. u))

    swap-IsUnset :
        (g : GlContext)
        → (swap_error egl g == egl_bad_surface) ≡ false
        → IsUnset g
        → IsUnset (swap egl g).1
    unfolding swap
    swap-IsUnset g good u =
        let failed : GlContext = record g {
          calls = get_error ∷ swap_buffers g.display g.surface ∷ g.calls;
        } in
        if-cases (λ (r : ℕ × GlContext). IsUnset r.1) (egl.swaps g.calls) _ _ (λ done. u)
          (λ not_done. swap_failed-IsUnset (swap_error egl g) failed good u)

    resume-IsUnset : (window : ℕ) (g : GlContext) → IsUnset g → IsUnset (resume egl window g).1
    unfolding resume
    resume-IsUnset window g u =
        let P : ℕ × GlContext → Type 0 = λ r. IsUnset r.1 in
        let err = resume_error egl window g in
        let tried = called get_error (resume_current egl window g).1 in
        let ended = terminate tried in
        if-cases P g.egl_context_initialized _ _
          (λ done.
            if-cases P (resume_current egl window g).0 _ _ (λ current e. clash done e)
              (λ failed.
                if-cases P (err == egl_context_lost) _ _
                  (λ lost e. clash done (sym (init_egl_context-flag tried) ∙ e))
                  (λ other e. clash done (
                    sym (
                      init_egl_context-flag (init_egl_surface egl ended).1
                      ∙ init_egl_surface-flag ended
                      ∙ terminate-flag tried)
                    ∙ e))))
          (λ first. init-IsUnset window g u)

    Step-IsUnset : {g g' : GlContext} → Step g g' → IsUnset g → IsUnset g'
    Step-IsUnset (inits window g) u = init-IsUnset window g u
    Step-IsUnset (swapped g good) u = swap-IsUnset g good u
    Step-IsUnset (suspended g) u = suspend-IsUnset g u
    Step-IsUnset (resumes window g z other) u = resume-IsUnset window g u
    Step-IsUnset (invalidated g) u = invalidate-IsUnset g

    Reachable-both : {g : GlContext} → Reachable g → IsHeld g × IsUnset g
    Reachable-both (created g) = (
      record { surfaces = refl; contexts = refl; no_display = λ d. (refl, refl) },
      λ e. (refl, refl),
    )
    Reachable-both (behind reachable step) =
        let (h, u) = Reachable-both reachable in (Step-IsHeld step h u, Step-IsUnset step u)

    -- Let EGL create nothing without a display. After any sequence of the methods from a new
    -- object, with the exceptions that `Step` states, the surfaces that were created and not
    -- destroyed are the one in `surface_`, or none where that is EGL_NO_SURFACE, and the same holds
    -- of contexts: nothing is left open, and nothing that is in use was destroyed.
    pub Reachable-open :
        {g : GlContext}
        → Reachable g
        → (open_surfaces g.calls ≡ held g.surface) × (open_contexts g.calls ≡ held g.context)
    Reachable-open reachable = let (h, u) = Reachable-both reachable in (h.surfaces, h.contexts)
