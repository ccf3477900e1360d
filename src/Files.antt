-- ===== src/Files.antt =====
-- file_store.go: the store that keeps everything in files below a directory.
pub mod Paths
pub mod System
pub mod Metadata
pub mod Entries
pub mod Sessions
pub mod Pins
pub mod Promotions
pub mod Blobs
pub mod Audit
pub mod Opening
