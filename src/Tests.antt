-- ===== src/Tests.antt =====
-- Concrete runs of the theorems, and the data that they share: a digest, an entry, a cache that holds
-- it, and calls on it.
pub mod Text
pub mod Pins
pub mod Store
pub mod Eviction
pub mod Collection
pub mod Sessions
pub mod Uploads
pub mod Promotions
pub mod Reading
pub mod Files
use go_build_cache.Prelude.{ℕ, String, none, [], ◌∷◌}
use go_build_cache.Digest.{Digest}
use go_build_cache.Model.{Entry, Time}
use go_build_cache.Store.{MemoryStore, new_memory_store}
use go_build_cache.Store.Entries.Swap.{stored}
use go_build_cache.Prelude.Maps.{string_eq}
use go_build_cache.Cache.{Cache}

abbrev pub sha : Digest
sha = record {
  algo = "sha256";
  hex = "e3b0c44298fc1c149afbf4c8996fb92427ae41e4649b934ca495991b7852b855";
}

abbrev pub entry_of : String → ℕ → ℕ → Time → Entry
entry_of key version size accessed = record {
  namespace = "default";
  key = key;
  version = version;
  digest = sha;
  total_size = size;
  chunks = record { index = 0; size = size; digest = sha } ∷ [];
  published_at = 5;
  last_accessed_at = accessed;
  promoted_from = none;
}

abbrev pub app : Entry
app = entry_of "app" 3 40 7

abbrev pub lib : Entry
lib = entry_of "lib" 1 60 6

abbrev pub two_entries : MemoryStore
two_entries = stored lib (stored app new_memory_store)

-- Its clock moves on by one with every reading.
abbrev pub cache_on : MemoryStore → Cache
cache_on m = record {
  store = m;
  ttl = 100;
  idem = [];
  pin_reqs = [];
  gc_gen = 0;
  evict_seq = 0;
  promo_seq = 0;
  readings = λ n. n;
  reads = 10;
}
