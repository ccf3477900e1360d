-- ===== src/Lib.antt =====
-- go-build-cache is a build cache: clients upload chunks under upload sessions, publish them as entries
-- of a namespace under a version condition, read them, and protect them with pin leases; entries over a
-- namespace's quota are evicted, blobs that nothing refers to are collected, and entries can be promoted
-- from one namespace to another. One `Cache` holds the state behind a mutex, over a `Store` that is in
-- memory or in files.
--
-- Which file models which part:
--   Prelude         shared names; 64-bit integers (Int64), maps (Map), decimal texts (Text), results and
--                   the monad of methods that mutate and may fail (Exec), sorting (Lists, Sorting)
--   Digest          digest.go: ParseDigest, validateHex, Digest.String, Digest.Valid
--   Ids             cache.go, promotion.go: the identifiers of eviction decisions and promotions, and the
--                   sequence numbers read back from them
--   Model, Errors   model.go, errors.go: the records, states and errors
--   Store           memory_store.go: MemoryStore and its operations, one child for each kind of object;
--                   Store/Invariant says what holds of every store that the operations build
--   Files           file_store.go: escapeKey and the paths (Paths), writeAtomic (System), what Save, Get
--                   and List share (Metadata), and the operations of FileStore, one child for each kind of
--                   object; Entries/Identity, Agreement and Runs compare the entries with MemoryStore's
--   Cache           cache.go: the state of Cache, and how its methods reach the store and the clock
--   Cache/Pins      cache.go: Pin, RenewPin, Unpin, SweepExpiredPins, GetPin, ListPins, and the request
--                   numbers that make the first three idempotent; Moves says what a call may do to a lease
--   Cache/Eviction  cache.go: PlanEviction, CommitEviction, enforceQuotaLocked, namespaceUsedLocked
--   Cache/Sessions  cache.go: CreateSession, UploadChunk, RenewSession, Cancel, GetSession, SweepExpired;
--                   Complete and publish, which make an entry of what was uploaded; Read
--   Cache/Namespaces  cache.go: SetNamespaceQuota, GetNamespace, DeleteNamespace and the status queries
--   Cache/Collection  cache.go: CollectGarbage, buildLiveSet, deathReason, and the queries
--                   BlobReferences and AuditLog
--   Cache/Promotions  promotion.go: PreparePromotion, CommitPromotion, Promote and the queries; the redo log
--                   whose phases a commit goes through, and resumePromotionTxns, which finishes at start-up
--                   what a crash has interrupted
--   Cache/Startup   cache.go: New and restoreIndex
--   Reader          reader.go: EntryReader
--   Clock           clock.go: FakeClock
--   Tests           the theorems at concrete values
--
-- How the code is modelled. A method is a function from the state to a result and the next state, since
-- the mutex makes each one step. A time is the number of nanoseconds since Go's zero time; the clock is a
-- sequence of readings, of which each call of `clock.Now()` takes the next, and which need not grow. An
-- int64 or uint64 is its 64-bit pattern; sums and differences wrap round, and comparisons are those of
-- signed integers. A Go map is an association list with one entry for a key; wherever the program lists
-- a map it sorts, and `sort.Slice` is an insertion sort. The operations of the in-memory store fail only
-- as their code does, so the branches for other failures of a store have no counterpart. A version, a
-- sequence number or a sum wraps where the code's would.
--
-- SHA-256, with its hexadecimal text, is an argument of the operations that hash, and the identifier that
-- `newSessionID` draws is one of CreateSession; the text of a time in RFC 3339 is an argument of what writes
-- it into an audit record or a reference. All three come from Go's library, and theorems about them ask
-- nothing of these arguments.
--
-- The file store works on a map from paths to bytes, where a path is the list of its components, cleaned as
-- filepath.Join cleans them, and a directory is there as soon as something stands in it. For each write the
-- system's answers are an argument: which step of writeAtomic fails, and the name of the temporary file; for
-- an append to the audit log, after how many bytes it breaks off, and whether the sync fails.
-- encoding/json is a codec for each type of record, of which a theorem asks only that what it writes is read
-- back. Opening, a read, a removal or a listing fails only where the file is missing, and no directory is in the way
-- of a file. The `Cache` of this model has the memory store below it.
--
-- Loops run over lists, so there is no fuel, but in the client that reads an entry to its end. A crash
-- leaves the store as it was after one of the writes. Not modelled: JSON texts, HTTP, and the texts of
-- errors.
mod Prelude
pub mod Digest
pub mod Ids
pub mod Model
pub mod Errors
pub mod Store
pub mod Files
pub mod Cache
pub mod Reader
pub mod Clock
mod Tests
