-- ===== src/Cache/Sessions.antt =====
-- cache.go: upload sessions, from their creation to the publication of what was uploaded.
pub mod Sweep
pub mod Chunks
pub mod Create
pub mod Upload
pub mod Publish
pub mod Covers
pub mod Offsets
pub mod Reading
pub mod Publication
pub mod Completion
pub mod Repetition
pub mod Room
