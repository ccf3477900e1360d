-- ===== src/Cache/Eviction.antt =====
-- cache.go: quota eviction in two phases. A plan chooses unpinned entries, least recently used first;
-- a commit deletes those of them that nothing has touched since.
pub mod Plan
pub mod Commit
pub mod Quota
pub mod Usage
pub mod Growth
pub mod Chosen
pub mod Enough
pub mod Deletions
pub mod Planned
pub mod Fits
pub mod Refused
pub mod Twice
