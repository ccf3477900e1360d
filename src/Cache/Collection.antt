-- ===== src/Cache/Collection.antt =====
-- cache.go: garbage collection, which removes dead sessions and expired leases, marks the blobs that
-- something refers to, and deletes the others.
pub mod Mark
pub mod Collect
pub mod References
pub mod Live
pub mod Removal
pub mod Harmless
pub mod Precise
pub mod Total
