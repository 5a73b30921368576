-- ===== src/GlContext/Live.antt =====
-- Which surfaces and contexts of EGL GLContext.cpp keeps.
use ndk.Base.{
  ℕ, Bool, true, false, List, [], ◌∷◌, ◌==◌, if◌then◌else◌, ◌≡◌, refl, ap, ◌∙◌, sym, arith,
  Bool-cases, inl, inr,
}
use ndk.GlContext.{
  EglCall, create_window_surface, create_context, destroy_surface, destroy_context, Egl, GlContext,
  called, make_current, context_destroyed, surface_destroyed, destroyed, terminate,
}

abbrev pub without : ℕ → List ℕ → List ℕ
without h [] = []
without h (first ∷ rest) = if first == h then rest else first ∷ without h rest

abbrev pub held : ℕ → List ℕ
held h = if h == 0 then [] else h ∷ []

abbrev pub opened : ℕ → List ℕ → List ℕ
opened h live = if h == 0 then live else h ∷ live

-- The surfaces that were created and not destroyed.
abbrev pub open_surfaces : List EglCall → List ℕ
open_surfaces [] = []
open_surfaces (create_window_surface d s ∷ calls) = opened s (open_surfaces calls)
open_surfaces (destroy_surface d s ∷ calls) = without s (open_surfaces calls)
open_surfaces (_ ∷ calls) = open_surfaces calls

abbrev pub open_contexts : List EglCall → List ℕ
open_contexts [] = []
open_contexts (create_context d c ∷ calls) = opened c (open_contexts calls)
open_contexts (destroy_context d c ∷ calls) = without c (open_contexts calls)
open_contexts (_ ∷ calls) = open_contexts calls

-- Without a display EGL creates nothing.
abbrev pub NeedsDisplay : Egl → Type 0
NeedsDisplay egl =
    (calls : List EglCall) → (egl.surface_of calls 0 ≡ 0) × (egl.context_of calls 0 ≡ 0)

-- What is open is what the object holds, which is nothing without a display or before `Init`.
pub record Held (surfaces_now contexts_now : List ℕ) (display surface context : ℕ) : Type 0 where
  pub surfaces : surfaces_now ≡ held surface
  pub contexts : contexts_now ≡ held context
  pub no_display : display ≡ 0 → (surface ≡ 0) × (context ≡ 0)

abbrev pub IsHeld : GlContext → Type 0
IsHeld g = Held (open_surfaces g.calls) (open_contexts g.calls) g.display g.surface g.context

pub if-cases {ℓ κ} :
    {A : Type ℓ} (P : A → Type κ) (b : Bool) (x y : A)
    → (b ≡ true → P x)
    → (b ≡ false → P y)
    → P (if b then x else y)
if-cases P true x y h k = h refl
if-cases P false x y h k = k refl

pub without-held : (h : ℕ) → without h (held h) ≡ []
without-held h = elim (Bool-cases (h == 0)) [
  | inl none ↦ rw none
  | inr some ↦ let e : (h == h) ≡ true = ground arith in rw (some, e)
]

context_destroyed-open :
    (g : GlContext)
    → open_contexts g.calls ≡ held g.context
    → (open_surfaces (context_destroyed g).calls ≡ open_surfaces g.calls)
      × (open_contexts (context_destroyed g).calls ≡ [])
context_destroyed-open g h = elim (Bool-cases (g.context == 0)) [
  | inl none ↦ rw none (refl, h ∙ rw none)
  | inr some ↦ rw (some, h) (refl, without-held g.context)
]

surface_destroyed-open :
    (g : GlContext)
    → open_surfaces g.calls ≡ held g.surface
    → (open_surfaces (surface_destroyed g).calls ≡ [])
      × (open_contexts (surface_destroyed g).calls ≡ open_contexts g.calls)
surface_destroyed-open g h = elim (Bool-cases (g.surface == 0)) [
  | inl none ↦ rw none (h ∙ rw none, refl)
  | inr some ↦ rw (some, h) (without-held g.surface, refl)
]

context_destroyed-surface : (g : GlContext) → (context_destroyed g).surface ≡ g.surface
context_destroyed-surface g = elim (Bool-cases (g.context == 0)) [
  | inl none ↦ rw none
  | inr some ↦ rw some
]

-- `Terminate` leaves nothing open.
destroyed-open :
    (g : GlContext)
    → IsHeld g
    → (open_surfaces (destroyed g).calls ≡ []) × (open_contexts (destroyed g).calls ≡ [])
destroyed-open g h =
    let away = called (make_current g.display 0 0) g in
    let (s1, c1) = context_destroyed-open away h.contexts in
    let (s2, c2) =
      surface_destroyed-open (context_destroyed away)
        (s1 ∙ h.surfaces ∙ ap held (sym (context_destroyed-surface away))) in
    elim (Bool-cases (g.display == 0)) [
      | inl none ↦
          let (s0, c0) = h.no_display (ground arith) in
          rw none (h.surfaces ∙ ap held s0, h.contexts ∙ ap held c0)
      | inr there ↦ rw there (s2, c2 ∙ c1)
    ]

pub terminate-IsHeld : (g : GlContext) → IsHeld g → IsHeld (terminate g)
unfolding terminate
terminate-IsHeld g h =
    let (s, c) = destroyed-open g h in
    record { surfaces = s; contexts = c; no_display = λ z. (refl, refl) }

opened-held : (h : ℕ) (live : List ℕ) → live ≡ [] → opened h live ≡ held h
opened-held h live e = ap (opened h) e
