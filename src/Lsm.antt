-- ===== src/Lsm.antt =====
-- mokv/lsm: the ordered tables of the storage engine, from one data block up to the manifest.
pub mod Entries
pub mod Insertion
pub mod SkipList
pub mod Bisect
pub mod Block
pub mod Runs
pub mod Sst
pub mod Layout
pub mod Level
pub mod Merge
pub mod Manifest
