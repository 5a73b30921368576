-- ===== src/CpuFeatures.antt =====
-- sources/android/cpufeatures/cpu-features.c, one child for each group of its functions.
pub mod Number
pub mod CpuList
pub mod Files
pub mod CpuInfo
pub mod Flags
pub mod Hwcap
pub mod Arm
pub mod Targets
pub mod Init
pub mod Api
