-- ===== src/Tests.antt =====
-- The theorems at concrete inputs.
pub mod Parsing
pub mod Features
pub mod Glue
pub mod Stack
pub mod Tools
pub mod Depends
pub mod Small
pub mod Fingers
pub mod Egl
