-- ===== src/GlContext/Kept.antt =====
-- Each method of GLContext.cpp keeps what it holds.
use ndk.Base.{
  ℕ, Bool, true, false, ◌||◌, ◌&&◌, codes, ◌∷◌, ◌==◌, ◌≡◌, refl, ap, ◌∙◌, Bool-cases, inl, inr,
}
use ndk.GlContext.{
  egl_bad_surface, egl_context_lost, egl_bad_context, create_context, Egl, GlContext, called,
  init_gles, versioned, includes, get_error, swap_buffers, get_display, initialize, first_choice,
  second_choice, chosen, with_window_surface, init_egl_surface, init_egl_context, init, terminate,
  swap_error, swap, resume_failed, resume_current, resume_error, resume, suspend, invalidate,
}
use ndk.GlContext.Live.{
  held, opened, without, NeedsDisplay, IsHeld, if-cases, without-held, terminate-IsHeld,
}

module _ (egl : Egl) (needs : NeedsDisplay egl) where
  with_window_surface-IsHeld :
      (g : GlContext) → IsHeld g → g.surface ≡ 0 → IsHeld (with_window_surface egl g)
  with_window_surface-IsHeld g h z = record {
    surfaces = ap (opened (egl.surface_of g.calls g.display)) (h.surfaces ∙ rw z);
    contexts = h.contexts;
    no_display = λ d. (rw d (needs g.calls).0, (h.no_display d).1);
  }

  first_choice-IsHeld :
      (g : GlContext) → IsHeld g → g.surface ≡ 0 → IsHeld (first_choice egl (chosen egl 24 g)).1
  first_choice-IsHeld g h z =
      let first = (chosen egl 24 g).1 in
      let first-IsHeld : IsHeld first = h in
      elim (Bool-cases (egl.num_configs g.calls 24 == 0)) [
        | inl none ↦ rw none (second first first-IsHeld z)
        | inr some ↦ rw some (with_window_surface-IsHeld first first-IsHeld z)
      ]
    where
      second :
          (g : GlContext)
          → IsHeld g
          → g.surface ≡ 0
          → IsHeld (second_choice egl (chosen egl 16 g)).1
      second g h z =
          let next = (chosen egl 16 g).1 in
          let next-IsHeld : IsHeld next = h in
          elim (Bool-cases (egl.num_configs g.calls 16 == 0)) [
            | inl none ↦ rw none next-IsHeld
            | inr some ↦ rw some (with_window_surface-IsHeld next next-IsHeld z)
          ]

  -- With no surface and no context before.
  init_egl_surface-IsHeld :
      (g : GlContext) → IsHeld g → g.surface ≡ 0 → g.context ≡ 0 → IsHeld (init_egl_surface egl g).1
  unfolding init_egl_surface
  init_egl_surface-IsHeld g h s c =
      let d = egl.display_of g.calls in
      first_choice-IsHeld
        (record g { display = d; color_size = 8; calls = initialize d ∷ get_display d ∷ g.calls })
        (record { surfaces = h.surfaces; contexts = h.contexts; no_display = λ d. (s, c) }) s

  init_egl_context-IsHeld :
      (g : GlContext) → IsHeld g → g.context ≡ 0 → IsHeld (init_egl_context egl g).1
  unfolding init_egl_context
  init_egl_context-IsHeld g h c =
      let created = ap (opened (egl.context_of g.calls g.display)) (h.contexts ∙ ap held c) in
      let without_display : g.display ≡ 0
          → (g.surface ≡ 0) × (egl.context_of g.calls g.display ≡ 0) =
        λ d. ((h.no_display d).0, rw d (needs g.calls).1) in
      elim (Bool-cases (
        egl.makes_current
          (create_context g.display (egl.context_of g.calls g.display) ∷ g.calls))) [
            | inl current ↦
                rw current (record {
                  surfaces = h.surfaces;
                  contexts = created;
                  no_display = without_display;
                })
            | inr failed ↦
                rw failed (record {
                  surfaces = h.surfaces;
                  contexts = created;
                  no_display = without_display;
                })
          ]

  init_gles-IsHeld : (g : GlContext) → IsHeld g → IsHeld (init_gles egl g)
  unfolding init_gles
  init_gles-IsHeld g h =
      if-cases IsHeld g.gles_initialized _ _ (λ done. h)
        (λ first.
          versioned-IsHeld (includes egl.version (codes "OpenGL ES 3.") && egl.gl3stub_init))
    where
      versioned-IsHeld : (three : Bool) → IsHeld (versioned three g)
      versioned-IsHeld true = h
      versioned-IsHeld false = h

  second_choice-context :
      (g : GlContext) → (second_choice egl (chosen egl 16 g)).1.context ≡ g.context
  second_choice-context g = elim (Bool-cases (egl.num_configs g.calls 16 == 0)) [
    | inl none ↦ rw none
    | inr some ↦ rw some
  ]

  first_choice-context :
      (g : GlContext) → (first_choice egl (chosen egl 24 g)).1.context ≡ g.context
  first_choice-context g = elim (Bool-cases (egl.num_configs g.calls 24 == 0)) [
    | inl none ↦ rw none (second_choice-context (chosen egl 24 g).1)
    | inr some ↦ rw some
  ]

  init_egl_surface-context : (g : GlContext) → (init_egl_surface egl g).1.context ≡ g.context
  unfolding init_egl_surface
  init_egl_surface-context g =
      let d = egl.display_of g.calls in
      first_choice-context
        (record g { display = d; color_size = 8; calls = initialize d ∷ get_display d ∷ g.calls })

  pub init-IsHeld :
      (window : ℕ) (g : GlContext)
      → IsHeld g
      → (g.egl_context_initialized ≡ false → (g.surface ≡ 0) × (g.context ≡ 0))
      → IsHeld (init egl window g).1
  unfolding init
  init-IsHeld window g h unset =
      if-cases (λ (r : Bool × GlContext). IsHeld r.1) g.egl_context_initialized _ _ (λ done. h)
        (λ first.
          let (s, c) = unset first in
          let g0 : GlContext = record g { window = window } in
          let g1 = (init_egl_surface egl g0).1 in
          init_gles-IsHeld (init_egl_context egl g1).1 (
            init_egl_context-IsHeld g1 (init_egl_surface-IsHeld g0 h s c)
              (init_egl_surface-context g0 ∙ c)))

  pub suspend-IsHeld : (g : GlContext) → IsHeld g → IsHeld (suspend g)
  unfolding suspend
  suspend-IsHeld g h = elim (Bool-cases (g.surface == 0)) [
    | inl none ↦ rw none h
    | inr some ↦ rw some (record {
      surfaces = ap (without g.surface) h.surfaces ∙ without-held g.surface;
      contexts = h.contexts;
      no_display = λ d. (refl, (h.no_display d).1);
    })
  ]

  -- Not for a bad surface: `Swap` makes a new one and keeps the old one open.
  pub swap-IsHeld :
      (g : GlContext)
      → IsHeld g
      → (swap_error egl g == egl_bad_surface) ≡ false
      → IsHeld (swap egl g).1
  unfolding swap terminate
  swap-IsHeld g h other =
      let swapped : GlContext = record g {
        calls = get_error ∷ swap_buffers g.display g.surface ∷ g.calls;
      } in
      let h1 : IsHeld swapped = h in
      let lost = swap_error egl g == egl_context_lost || swap_error egl g == egl_bad_context in
      let invalid : GlContext = record swapped { context_valid = false } in
      let h2 : IsHeld invalid = h in
      elim (Bool-cases (egl.swaps g.calls)) [
        | inl done ↦ rw done h
        | inr failed ↦
            rw (failed, other)
              (elim (Bool-cases lost) [
                | inl so ↦
                    rw so (
                      init_egl_context-IsHeld (terminate invalid) (terminate-IsHeld invalid h2)
                        refl)
                | inr alive ↦ rw alive h1
              ])
      ]

  pub invalidate-IsHeld : (g : GlContext) → IsHeld g → IsHeld (invalidate g).1
  unfolding invalidate
  invalidate-IsHeld g h = terminate-IsHeld g h

  resume_failed-IsHeld :
      (err : ℕ) (g : GlContext)
      → (err == egl_context_lost) ≡ false
      → IsHeld g
      → IsHeld (resume_failed egl err g).1
  unfolding terminate
  resume_failed-IsHeld err g other h =
      let ended = terminate g in
      rw other (
        init_egl_context-IsHeld (init_egl_surface egl ended).1
          (init_egl_surface-IsHeld ended (terminate-IsHeld g h) refl refl)
          (init_egl_surface-context ended))

  -- With no surface before, and not for a lost context: `Resume` then makes a new context and keeps
  -- the old one open.
  pub resume-IsHeld :
      (window : ℕ) (g : GlContext)
      → IsHeld g
      → g.surface ≡ 0
      → (g.egl_context_initialized ≡ false → (g.surface ≡ 0) × (g.context ≡ 0))
      → (resume_error egl window g == egl_context_lost) ≡ false
      → IsHeld (resume egl window g).1
  unfolding resume
  resume-IsHeld window g h z unset other =
      let tried = (resume_current egl window g).1 in
      let tried-IsHeld : IsHeld tried =
        with_window_surface-IsHeld (record g { window = window }) h z in
      if-cases (λ (r : ℕ × GlContext). IsHeld r.1) g.egl_context_initialized _ _
        (λ done.
          if-cases (λ (r : ℕ × GlContext). IsHeld r.1) (resume_current egl window g).0 _ _
            (λ current. tried-IsHeld)
            (λ failed.
              resume_failed-IsHeld (resume_error egl window g) (called get_error tried) other
                tried-IsHeld))
        (λ first. init-IsHeld window g h unset)
