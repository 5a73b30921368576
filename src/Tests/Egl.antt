-- ===== src/Tests/Egl.antt =====
-- Uses of the theorem on GLContext.cpp.
use ndk.Base.{ℕ, ◌+◌, true, false, ◌≡◌, refl, List, [], ◌∷◌, codes, length, ◌==◌, if◌then◌else◌}
use ndk.GlContext.{
  EglCall, swap_buffers, Egl, GlContext, constructed, init_gles, init_egl_surface, init_egl_context,
  init, suspend, resume, swap,
}
use ndk.GlContext.Live.{held, open_surfaces, open_contexts}
use ndk.GlContext.Steps.{inits, swapped, suspended, resumes, created, behind, Reachable-open}

-- A swap fails for a lost context, and all else for a bad match.
abbrev failure : List EglCall → ℕ
failure (swap_buffers d s ∷ calls) = 0x300e
failure calls = 0x3009

-- Each handle is the number of calls before it, behind 1, and no config has a depth
-- of 24; eglSwapBuffers fails.
abbrev machine : Egl
machine = record {
  display_of = λ calls. 1;
  num_configs = λ calls depth. if depth == 24 then 0 else 1;
  config_of = λ calls depth. depth;
  surface_of = λ calls d. if d == 0 then 0 else 1 + length calls;
  context_of = λ calls d. if d == 0 then 0 else 1 + length calls;
  width_of = λ calls. 480;
  height_of = λ calls. 800;
  makes_current = λ calls. true;
  swaps = λ calls. false;
  error_of = failure;
  version = codes "OpenGL ES 3.0";
  extensions = [];
  gl3stub_init = true;
}

abbrev blank : GlContext
blank = record {
  window = 0;
  display = 0;
  surface = 0;
  context = 0;
  config = 0;
  screen_width = 0;
  screen_height = 0;
  color_size = 0;
  depth_size = 0;
  gles_initialized = false;
  egl_context_initialized = false;
  es3_supported = false;
  gl_version = 0;
  context_valid = false;
  calls = [];
}

abbrev running : GlContext
running = (init machine 7 (constructed blank)).1

abbrev again : GlContext
again = (resume machine 8 (suspend running)).1

abbrev lost : GlContext
lost = (swap machine again).1

Reachable-open_example :
    (open_surfaces lost.calls ≡ held lost.surface) × (open_contexts lost.calls ≡ held lost.context)
unfolding init init_gles init_egl_surface init_egl_context suspend resume
Reachable-open_example =
    Reachable-open machine (λ calls. (refl, refl))
      (behind
        (behind (behind (behind (created blank) (inits 7 (constructed blank))) (suspended running))
          (resumes 8 (suspend running) refl refl))
        (swapped again refl))
