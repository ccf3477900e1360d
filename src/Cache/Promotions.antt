-- ===== src/Cache/Promotions.antt =====
-- promotion.go: promotions of entries from one namespace to another, in two phases, with a redo log.
pub mod Requests
pub mod Plan
pub mod Prepare
pub mod Validate
pub mod Phases
pub mod Apply
pub mod Commit
pub mod Queries
pub mod Failing
pub mod Effects
pub mod Writes
pub mod Changes
pub mod Commitment
pub mod Saving
pub mod Preparation
pub mod Requested
pub mod Protection
pub mod Resumption
pub mod Interruptions
pub mod Conflict
pub mod Recovery
pub mod Checks
pub mod Guarantees
