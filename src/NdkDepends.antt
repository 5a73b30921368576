-- ===== src/NdkDepends.antt =====
-- sources/host-tools/ndk-depends/ndk-depends.cc, compiled for Linux with 64 bits. A std::string is
-- the list of its bytes.
pub mod Paths
pub mod Reader
pub mod Elf
pub mod Dynamic
pub mod Search
pub mod Dictionary
pub mod Graph
pub mod Sort
pub mod Main
