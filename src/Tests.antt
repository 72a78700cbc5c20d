-- ===== src/Tests.antt =====
-- Concrete inputs for the theorems, and runs of the definitions on them.
mod Tables
mod SkipLists
mod Layouts
mod ManifestFiles
mod Stores
mod Codecs
mod Filters
mod Storage
mod Replication
mod Records
