-- ===== src/Cache/Pins.antt =====
-- cache.go: pin leases. Pin, RenewPin, Unpin, the sweep of expired pins, and the request numbers that
-- make the first three idempotent.
pub mod Requests
pub mod Create
pub mod Leases
pub mod Sweep
pub mod Queries
pub mod Outcomes
pub mod Moves
pub mod History
pub mod Remembering
pub mod Replay
