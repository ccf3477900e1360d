-- ===== src/Store.antt =====
-- memory_store.go: the in-memory implementation of store.go's Store. An operation that cannot fail
-- there has no error here; the mutex and the defensive copies leave no trace in a value.
pub mod Blobs
pub mod Sessions
pub mod Entries
pub mod Pins
pub mod Decisions
pub mod Promotions
pub mod Audit
pub mod Invariant
use Prim.Native.Char.{nul}
use Prim.Native.String.{String, ◌++◌}
use Prim.Native.String
use go_build_cache.Prelude.{
  ℕ, Bool, true, false, not, ◌&&◌, ◌||◌, Option, none, some, List, [], ◌∷◌, ◌++◌ as append, ◌==◌,
  str_eq, if◌then◌else◌, length, sort_by,
}
use go_build_cache.Prelude.Exec.{Result, ok, err, Exec, Done}
use go_build_cache.Prelude.Int64.{lt64}
use go_build_cache.Prelude.Maps.{Map, get, put, delete, values}
use go_build_cache.Prelude.Text.{str_lt}
use go_build_cache.Digest.{Digest, valid, parse_digest, to_string}
use go_build_cache.Model.{
  Session, Namespace, Entry, Pin, PinRequest, EvictionDecision, Promotion, PromotionRequest,
  PromotionTxn, GcRecord,
}
use go_build_cache.Errors.{
  Error, blob_not_found, cas_failed, not_found, session_not_found, entry_not_found,
  promotion_not_found, bad_digest, plain,
}

abbrev pub Bytes : Type 0
Bytes = List ℕ

pub record BlobInfo : Type 0 where
  pub digest : Digest
  pub size : ℕ

pub record MemoryStore : Type 0 where
  pub blobs : Map String Bytes
  pub sessions : Map String Session
  pub namespaces : Map String Namespace
  pub entries : Map String Entry
  pub pins : Map String Pin
  pub pin_reqs : Map String PinRequest
  pub decisions : Map String EvictionDecision
  pub promotions : Map String Promotion
  pub promo_reqs : Map String PromotionRequest
  pub promo_txns : Map String PromotionTxn
  pub audit : List GcRecord

abbrev pub new_memory_store : MemoryStore
new_memory_store = record {
  blobs = [];
  sessions = [];
  namespaces = [];
  entries = [];
  pins = [];
  pin_reqs = [];
  decisions = [];
  promotions = [];
  promo_reqs = [];
  promo_txns = [];
  audit = [];
}

-- namespace + "\x00" + key
unfoldable pub entry_map_key : String → String → String
entry_map_key namespace key = namespace ++ String.◌∷◌ nul key

abbrev pub or_fail : {A : Type 0} → Option A → Error → Result Error A
or_fail none e = err e
or_fail (some a) e = ok a
