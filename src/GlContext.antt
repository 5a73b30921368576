-- ===== src/GlContext.antt =====
-- sources/android/ndk_helper/GLContext.cpp. EGL and OpenGL are a record of what each call answers
-- after the calls made so far, which the model keeps in a list, the latest first. A handle is a
-- number, and 0 is EGL_NO_DISPLAY, EGL_NO_SURFACE and EGL_NO_CONTEXT.
pub mod Live
pub mod Kept
pub mod Steps
use ndk.Base.{
  ℕ, ◌&&◌, ◌||◌, not, Bool, true, false, Option, none, some, List, [], ◌∷◌, ◌++◌, Bytes, codes,
  ◌==◌, if◌then◌else◌,
}
use ndk.Base.CString.{starts_with}

abbrev pub egl_success : ℕ
egl_success = 0x3000

abbrev pub egl_bad_context : ℕ
egl_bad_context = 0x3006

abbrev pub egl_bad_surface : ℕ
egl_bad_surface = 0x300d

abbrev pub egl_context_lost : ℕ
egl_context_lost = 0x300e

-- The calls, with the handles they are given and the handle they return.
pub data EglCall : Type 0 where
  get_display : ℕ → EglCall
  initialize terminate_display : ℕ → EglCall
  choose_config : ℕ → ℕ → EglCall
  create_window_surface create_context : ℕ → ℕ → EglCall
  query_surface destroy_surface destroy_context swap_buffers : ℕ → ℕ → EglCall
  make_current : ℕ → ℕ → ℕ → EglCall
  get_error : EglCall

-- What a call answers behind others. The number of configs is what `num_configs` holds behind
-- eglChooseConfig with a depth, and the config what `config_` holds.
pub record Egl : Type 0 where
  pub display_of : List EglCall → ℕ
  pub num_configs : List EglCall → ℕ → ℕ
  pub config_of : List EglCall → ℕ → ℕ
  pub surface_of : List EglCall → ℕ → ℕ
  pub context_of : List EglCall → ℕ → ℕ
  pub width_of : List EglCall → ℕ
  pub height_of : List EglCall → ℕ
  pub makes_current : List EglCall → Bool
  pub swaps : List EglCall → Bool
  pub error_of : List EglCall → ℕ
  pub version : Bytes
  pub extensions : Bytes
  pub gl3stub_init : Bool

-- The members of the class, and the calls made. A version 3.0 is the number 3.
pub record GlContext : Type 0 where
  pub window : ℕ
  pub display : ℕ
  pub surface : ℕ
  pub context : ℕ
  pub config : ℕ
  pub screen_width : ℕ
  pub screen_height : ℕ
  pub color_size : ℕ
  pub depth_size : ℕ
  pub gles_initialized : Bool
  pub egl_context_initialized : Bool
  pub es3_supported : Bool
  pub gl_version : ℕ
  pub context_valid : Bool
  pub calls : List EglCall

abbrev pub called : EglCall → GlContext → GlContext
called call g = record g { calls = call ∷ g.calls }

-- The constructor, on the members that it does not set.
abbrev pub constructed : GlContext → GlContext
constructed g = record g {
  display = 0;
  surface = 0;
  context = 0;
  screen_width = 0;
  screen_height = 0;
  es3_supported = false;
  egl_context_initialized = false;
  gles_initialized = false;
}

-- `strstr(s, text) != NULL`, and std::string::find.
abbrev pub includes : Bytes → Bytes → Bool
includes [] text = starts_with text []
includes (c ∷ s) text = starts_with text (c ∷ s) || includes s text

-- `InitGLES` behind its guard.
abbrev pub versioned : Bool → GlContext → GlContext
versioned true g = record g { es3_supported = true; gl_version = 3; gles_initialized = true }
versioned false g = record g { gl_version = 2; gles_initialized = true }

unfoldable pub init_gles : Egl → GlContext → GlContext
init_gles egl g =
    if g.gles_initialized
    then g
    else versioned (includes egl.version (codes "OpenGL ES 3.") && egl.gl3stub_init) g

-- eglCreateWindowSurface with the two queries behind it.
abbrev pub with_window_surface : Egl → GlContext → GlContext
with_window_surface egl g =
    let s = egl.surface_of g.calls g.display in
    let created : List EglCall = create_window_surface g.display s ∷ g.calls in
    let asked : List EglCall = query_surface g.display s ∷ created in
    record g {
      surface = s;
      screen_width = egl.width_of created;
      screen_height = egl.height_of asked;
      calls = query_surface g.display s ∷ asked;
    }

-- eglChooseConfig with a depth: `num_configs`, and the object.
abbrev pub chosen : Egl → ℕ → GlContext → ℕ × GlContext
chosen egl depth g = (
  egl.num_configs g.calls depth,
  record g {
    config = egl.config_of g.calls depth;
    depth_size = depth;
    calls = choose_config g.display depth ∷ g.calls;
  },
)

-- `if( !num_configs )`, the second time and the first time.
abbrev pub second_choice : Egl → ℕ × GlContext → Bool × GlContext
second_choice egl (n, g) = if n == 0 then (false, g) else (true, with_window_surface egl g)

abbrev pub first_choice : Egl → ℕ × GlContext → Bool × GlContext
first_choice egl (n, g) =
    if n == 0 then second_choice egl (chosen egl 16 g) else (true, with_window_surface egl g)

unfoldable pub init_egl_surface : Egl → GlContext → Bool × GlContext
init_egl_surface egl g =
    let d = egl.display_of g.calls in
    first_choice egl (
      chosen egl 24
        (record g { display = d; color_size = 8; calls = initialize d ∷ get_display d ∷ g.calls }))

abbrev pub made_current : Egl → ℕ → ℕ → GlContext → Bool × GlContext
made_current egl s c g =
    let call = make_current g.display s c in (egl.makes_current g.calls, called call g)

abbrev pub validated : Bool × GlContext → Bool × GlContext
validated (current, g) = if current then (true, record g { context_valid = true }) else (false, g)

unfoldable pub init_egl_context : Egl → GlContext → Bool × GlContext
init_egl_context egl g =
    let c = egl.context_of g.calls g.display in
    validated (
      made_current egl g.surface c
        (record g { context = c; calls = create_context g.display c ∷ g.calls }))

unfoldable pub init : Egl → ℕ → GlContext → Bool × GlContext
init egl window g =
    if g.egl_context_initialized
    then (true, g)
    else let g1 = (init_egl_surface egl (record g { window = window })).1 in
      let g2 = init_gles egl (init_egl_context egl g1).1 in
      (true, record g2 { egl_context_initialized = true })

abbrev pub context_destroyed : GlContext → GlContext
context_destroyed g = if g.context == 0 then g else called (destroy_context g.display g.context) g

abbrev pub surface_destroyed : GlContext → GlContext
surface_destroyed g = if g.surface == 0 then g else called (destroy_surface g.display g.surface) g

-- The calls of `Terminate`.
abbrev pub destroyed : GlContext → GlContext
destroyed g =
    if g.display == 0
    then g
    else called (terminate_display g.display)
        (surface_destroyed (context_destroyed (called (make_current g.display 0 0) g)))

unfoldable pub terminate : GlContext → GlContext
terminate g = record (destroyed g) { display = 0; context = 0; surface = 0; context_valid = false }

-- `Swap` behind eglGetError.
abbrev pub swap_failed : Egl → ℕ → GlContext → ℕ × GlContext
swap_failed egl err g =
    if err == egl_bad_surface
    then (egl_success, (init_egl_surface egl g).1)
    else if err == egl_context_lost || err == egl_bad_context
    then (err, (init_egl_context egl (terminate (record g { context_valid = false }))).1)
    else (err, g)

abbrev pub swap_error : Egl → GlContext → ℕ
swap_error egl g = egl.error_of (swap_buffers g.display g.surface ∷ g.calls)

unfoldable pub swap : Egl → GlContext → ℕ × GlContext
swap egl g =
    let swapped = called (swap_buffers g.display g.surface) g in
    if egl.swaps g.calls
    then (egl_success, swapped)
    else swap_failed egl (swap_error egl g) (called get_error swapped)

-- `Resume` behind eglGetError.
abbrev pub resume_failed : Egl → ℕ → GlContext → ℕ × GlContext
resume_failed egl err g =
    if err == egl_context_lost
    then (err, (init_egl_context egl g).1)
    else (err, (init_egl_context egl (init_egl_surface egl (terminate g)).1).1)

-- `Resume` behind eglMakeCurrent.
abbrev pub resumed : Egl → Bool × GlContext → ℕ × GlContext
resumed egl (current, g) =
    if current
    then (egl_success, g)
    else resume_failed egl (egl.error_of g.calls) (called get_error g)

abbrev pub resume_current : Egl → ℕ → GlContext → Bool × GlContext
resume_current egl window g =
    let g1 = with_window_surface egl (record g { window = window }) in
    made_current egl g1.surface g1.context g1

-- What eglGetError answers there.
abbrev pub resume_error : Egl → ℕ → GlContext → ℕ
resume_error egl window g = egl.error_of (resume_current egl window g).1.calls

unfoldable pub resume : Egl → ℕ → GlContext → ℕ × GlContext
resume egl window g =
    if g.egl_context_initialized
    then resumed egl (resume_current egl window g)
    else (egl_success, (init egl window g).1)

unfoldable pub suspend : GlContext → GlContext
suspend g =
    if g.surface == 0
    then g
    else record (called (destroy_surface g.display g.surface) g) { surface = 0 }

unfoldable pub invalidate : GlContext → Bool × GlContext
invalidate g = (true, record (terminate g) { egl_context_initialized = false })

-- `CheckExtension`; none for NULL. The string with the space appended is not used.
unfoldable pub check_extension : Egl → Option Bytes → Bool
check_extension egl none = false
check_extension egl (some extension) = includes egl.extensions extension
