-- ===== src/Gl3Stub.antt =====
-- sources/android/ndk_helper/gl3stub.c. A function's address is a number, and 0 is NULL; the
-- variables that hold the addresses are a function of their names.
pub mod Found
use ndk.Base.{
  ℕ, Bool, true, false, not, ◌&&◌, List, [], ◌∷◌, Bytes, codes, equal, equal→eq, All, All-map,
  Bool-cases, inl, inr, ◌==◌, ◌==◌, if◌then◌else◌, ◌≡◌, ◌≢◌, ◌↔◌, refl, ap, ◌∙◌, sym, arith,
}

-- The variables that `FIND_PROC` sets, in its order.
abbrev pub find_procs : List Bytes
find_procs =
    codes "glReadBuffer"
    ∷ codes "glDrawRangeElements"
    ∷ codes "glTexImage3D"
    ∷ codes "glTexSubImage3D"
    ∷ codes "glCopyTexSubImage3D"
    ∷ codes "glCompressedTexImage3D"
    ∷ codes "glCompressedTexSubImage3D"
    ∷ codes "glGenQueries"
    ∷ codes "glDeleteQueries"
    ∷ codes "glIsQuery"
    ∷ codes "glBeginQuery"
    ∷ codes "glEndQuery"
    ∷ codes "glGetQueryiv"
    ∷ codes "glGetQueryObjectuiv"
    ∷ codes "glUnmapBuffer"
    ∷ codes "glGetBufferPointerv"
    ∷ codes "glDrawBuffers"
    ∷ codes "glUniformMatrix2x3fv"
    ∷ codes "glUniformMatrix3x2fv"
    ∷ codes "glUniformMatrix2x4fv"
    ∷ codes "glUniformMatrix4x2fv"
    ∷ codes "glUniformMatrix3x4fv"
    ∷ codes "glUniformMatrix4x3fv"
    ∷ codes "glBlitFramebuffer"
    ∷ codes "glRenderbufferStorageMultisample"
    ∷ codes "glFramebufferTextureLayer"
    ∷ codes "glMapBufferRange"
    ∷ codes "glFlushMappedBufferRange"
    ∷ codes "glBindVertexArray"
    ∷ codes "glDeleteVertexArrays"
    ∷ codes "glGenVertexArrays"
    ∷ codes "glIsVertexArray"
    ∷ codes "glGetIntegeri_v"
    ∷ codes "glBeginTransformFeedback"
    ∷ codes "glEndTransformFeedback"
    ∷ codes "glBindBufferRange"
    ∷ codes "glBindBufferBase"
    ∷ codes "glTransformFeedbackVaryings"
    ∷ codes "glGetTransformFeedbackVarying"
    ∷ codes "glVertexAttribIPointer"
    ∷ codes "glGetVertexAttribIiv"
    ∷ codes "glGetVertexAttribIuiv"
    ∷ codes "glVertexAttribI4i"
    ∷ codes "glVertexAttribI4ui"
    ∷ codes "glVertexAttribI4iv"
    ∷ codes "glVertexAttribI4uiv"
    ∷ codes "glGetUniformuiv"
    ∷ codes "glGetFragDataLocation"
    ∷ codes "glUniform1ui"
    ∷ codes "glUniform2ui"
    ∷ codes "glUniform3ui"
    ∷ codes "glUniform4ui"
    ∷ codes "glUniform1uiv"
    ∷ codes "glUniform2uiv"
    ∷ codes "glUniform3uiv"
    ∷ codes "glUniform4uiv"
    ∷ codes "glClearBufferiv"
    ∷ codes "glClearBufferuiv"
    ∷ codes "glClearBufferfv"
    ∷ codes "glClearBufferfi"
    ∷ codes "glGetStringi"
    ∷ codes "glCopyBufferSubData"
    ∷ codes "glGetUniformIndices"
    ∷ codes "glGetActiveUniformsiv"
    ∷ codes "glGetUniformBlockIndex"
    ∷ codes "glGetActiveUniformBlockiv"
    ∷ codes "glGetActiveUniformBlockName"
    ∷ codes "glUniformBlockBinding"
    ∷ codes "glDrawArraysInstanced"
    ∷ codes "glDrawElementsInstanced"
    ∷ codes "glFenceSync"
    ∷ codes "glIsSync"
    ∷ codes "glDeleteSync"
    ∷ codes "glClientWaitSync"
    ∷ codes "glWaitSync"
    ∷ codes "glGetInteger64v"
    ∷ codes "glGetSynciv"
    ∷ codes "glGetInteger64i_v"
    ∷ codes "glGetBufferParameteri64v"
    ∷ codes "glGenSamplers"
    ∷ codes "glDeleteSamplers"
    ∷ codes "glIsSampler"
    ∷ codes "glBindSampler"
    ∷ codes "glSamplerParameteri"
    ∷ codes "glSamplerParameteriv"
    ∷ codes "glSamplerParameterf"
    ∷ codes "glSamplerParameterfv"
    ∷ codes "glGetSamplerParameteriv"
    ∷ codes "glGetSamplerParameterfv"
    ∷ codes "glVertexAttribDivisor"
    ∷ codes "glBindTransformFeedback"
    ∷ codes "glDeleteTransformFeedbacks"
    ∷ codes "glGenTransformFeedbacks"
    ∷ codes "glIsTransformFeedback"
    ∷ codes "glPauseTransformFeedback"
    ∷ codes "glResumeTransformFeedback"
    ∷ codes "glGetProgramBinary"
    ∷ codes "glProgramBinary"
    ∷ codes "glProgramParameteri"
    ∷ codes "glInvalidateFramebuffer"
    ∷ codes "glInvalidateSubFramebuffer"
    ∷ codes "glTexStorage2D"
    ∷ codes "glTexStorage3D"
    ∷ codes "glGetInternalformativ"
    ∷ []

-- The variables that are tested.
abbrev pub tested_procs : List Bytes
tested_procs =
    codes "glReadBuffer"
    ∷ codes "glDrawRangeElements"
    ∷ codes "glTexImage3D"
    ∷ codes "glTexSubImage3D"
    ∷ codes "glCopyTexSubImage3D"
    ∷ codes "glCompressedTexImage3D"
    ∷ codes "glCompressedTexSubImage3D"
    ∷ codes "glGenQueries"
    ∷ codes "glDeleteQueries"
    ∷ codes "glIsQuery"
    ∷ codes "glBeginQuery"
    ∷ codes "glEndQuery"
    ∷ codes "glGetQueryiv"
    ∷ codes "glGetQueryObjectuiv"
    ∷ codes "glUnmapBuffer"
    ∷ codes "glGetBufferPointerv"
    ∷ codes "glDrawBuffers"
    ∷ codes "glUniformMatrix2x3fv"
    ∷ codes "glUniformMatrix3x2fv"
    ∷ codes "glUniformMatrix2x4fv"
    ∷ codes "glUniformMatrix4x2fv"
    ∷ codes "glUniformMatrix3x4fv"
    ∷ codes "glUniformMatrix4x3fv"
    ∷ codes "glBlitFramebuffer"
    ∷ codes "glRenderbufferStorageMultisample"
    ∷ codes "glFramebufferTextureLayer"
    ∷ codes "glMapBufferRange"
    ∷ codes "glFlushMappedBufferRange"
    ∷ codes "glBindVertexArray"
    ∷ codes "glDeleteVertexArrays"
    ∷ codes "glGenVertexArrays"
    ∷ codes "glIsVertexArray"
    ∷ codes "glGetIntegeri_v"
    ∷ codes "glBeginTransformFeedback"
    ∷ codes "glEndTransformFeedback"
    ∷ codes "glBindBufferRange"
    ∷ codes "glBindBufferBase"
    ∷ codes "glTransformFeedbackVaryings"
    ∷ codes "glGetTransformFeedbackVarying"
    ∷ codes "glVertexAttribIPointer"
    ∷ codes "glGetVertexAttribIiv"
    ∷ codes "glGetVertexAttribIuiv"
    ∷ codes "glVertexAttribI4i"
    ∷ codes "glVertexAttribI4ui"
    ∷ codes "glVertexAttribI4iv"
    ∷ codes "glVertexAttribI4uiv"
    ∷ codes "glGetUniformuiv"
    ∷ codes "glGetFragDataLocation"
    ∷ codes "glUniform1ui"
    ∷ codes "glUniform2ui"
    ∷ codes "glUniform3ui"
    ∷ codes "glUniform4ui"
    ∷ codes "glUniform1uiv"
    ∷ codes "glUniform2uiv"
    ∷ codes "glUniform3uiv"
    ∷ codes "glUniform4uiv"
    ∷ codes "glClearBufferiv"
    ∷ codes "glClearBufferuiv"
    ∷ codes "glClearBufferfv"
    ∷ codes "glClearBufferfi"
    ∷ codes "glGetStringi"
    ∷ codes "glCopyBufferSubData"
    ∷ codes "glGetUniformIndices"
    ∷ codes "glGetActiveUniformsiv"
    ∷ codes "glGetUniformBlockIndex"
    ∷ codes "glGetActiveUniformBlockiv"
    ∷ codes "glGetActiveUniformBlockName"
    ∷ codes "glUniformBlockBinding"
    ∷ codes "glDrawArraysInstanced"
    ∷ codes "glDrawElementsInstanced"
    ∷ codes "glFenceSync"
    ∷ codes "glIsSync"
    ∷ codes "glDeleteSync"
    ∷ codes "glClientWaitSync"
    ∷ codes "glWaitSync"
    ∷ codes "glGetInteger64v"
    ∷ codes "glGetSynciv"
    ∷ codes "glGetInteger64i_v"
    ∷ codes "glGetBufferParameteri64v"
    ∷ codes "glGenSamplers"
    ∷ codes "glDeleteSamplers"
    ∷ codes "glIsSampler"
    ∷ codes "glBindSampler"
    ∷ codes "glSamplerParameteri"
    ∷ codes "glSamplerParameteriv"
    ∷ codes "glSamplerParameterf"
    ∷ codes "glSamplerParameterfv"
    ∷ codes "glGetSamplerParameteriv"
    ∷ codes "glGetSamplerParameterfv"
    ∷ codes "glVertexAttribDivisor"
    ∷ codes "glBindTransformFeedback"
    ∷ codes "glDeleteTransformFeedbacks"
    ∷ codes "glGenTransformFeedbacks"
    ∷ codes "glIsTransformFeedback"
    ∷ codes "glPauseTransformFeedback"
    ∷ codes "glResumeTransformFeedback"
    ∷ codes "glGetProgramBinary"
    ∷ codes "glProgramBinary"
    ∷ codes "glProgramParameteri"
    ∷ codes "glInvalidateFramebuffer"
    ∷ codes "glInvalidateSubFramebuffer"
    ∷ codes "glTexStorage2D"
    ∷ codes "glTexStorage3D"
    ∷ codes "glGetInternalformativ"
    ∷ []

-- `s = (void*)eglGetProcAddress(#s)` for each name.
unfoldable pub find_all : (Bytes → ℕ) → List Bytes → (Bytes → ℕ) → Bytes → ℕ
find_all get_proc_address [] procs = procs
find_all get_proc_address (s ∷ names) procs =
    find_all get_proc_address names
      (λ name. if equal s name then get_proc_address s else procs name)

-- No variable is NULL.
unfoldable pub none_missing : (Bytes → ℕ) → List Bytes → Bool
none_missing procs [] = true
none_missing procs (s ∷ names) = not (procs s == 0) && none_missing procs names

-- The result, and the variables behind the call.
unfoldable pub gl3stub_init : (Bytes → ℕ) → (Bytes → ℕ) → Bool × (Bytes → ℕ)
gl3stub_init get_proc_address procs =
    let found = find_all get_proc_address find_procs procs in
    (none_missing found tested_procs, found)
