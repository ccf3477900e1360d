-- ===== src/Cache.antt =====
-- cache.go: the state of the cache service and the ways in which its methods reach it. The mutex makes
-- each method one step. `clock.Now()` takes the next of a sequence of readings, which need not grow.
pub mod Pins
pub mod Eviction
pub mod Sessions
pub mod Namespaces
pub mod Promotions
pub mod Startup
pub mod Collection
use go_build_cache.Prelude.{ℕ, suc, String, ◌≡◌, refl, Option, str_eq, if◌then◌else◌}
use go_build_cache.Prelude.Exec.{Result, ok, err, Exec, Done}
use go_build_cache.Prelude.Maps.{Map}
use go_build_cache.Model.{Time, Namespace, PinRequest, default_namespace}
use go_build_cache.Errors.{Error, not_found, namespace_not_found}
use go_build_cache.Store.{MemoryStore}
use go_build_cache.Store.Sessions.{get_namespace}

pub record Cache : Type 0 where
  pub store : MemoryStore
  pub ttl : ℕ
  pub idem : Map String String
  pub pin_reqs : Map String PinRequest
  pub gc_gen : ℕ
  pub evict_seq : ℕ
  pub promo_seq : ℕ
  -- the clock's readings, and how many of them have been taken
  pub readings : ℕ → Time
  pub reads : ℕ

abbrev pub M : Type 0 → Type 0
M A = Exec Error Cache A

-- What the next `clock.Now()` returns.
abbrev pub next_reading : Cache → Time
next_reading c = c.readings c.reads

abbrev pub clock_now : M Time
clock_now c = (ok (c.readings c.reads), record c { reads = suc c.reads })

-- After one reading.
abbrev pub tick : Cache → Cache
tick c = record c { reads = suc c.reads }

module _ {A : Type 0} where
  abbrev pub query : (MemoryStore → Result Error A) → M A
  query f c = (f c.store, c)

  abbrev pub look : (MemoryStore → A) → M A
  look f c = (ok (f c.store), c)

abbrev pub write : (MemoryStore → MemoryStore) → M Done
write f c = (ok tt, record c { store = f c.store })

abbrev pub written : Result Error MemoryStore → M Done
written (ok m) c = (ok tt, record c { store = m })
written (err e) c = (err e, c)

abbrev pub try_write : (MemoryStore → Result Error MemoryStore) → M Done
try_write f c = written (f c.store) c

unfoldable pub norm_namespace : String → String
norm_namespace ns = if str_eq ns "" then default_namespace else ns

abbrev pub required : String → Result Error Namespace → Result Error Namespace
required name (ok ns) = ok ns
required name (err not_found) = err (namespace_not_found name)
required name (err e) = err e

-- requireNamespaceLocked
unfoldable pub require_namespace : String → MemoryStore → Result Error Namespace
require_namespace name m = required name (get_namespace name m)
