-- ===== src/Cache/Namespaces.antt =====
-- cache.go: namespaces with their quotas, and the status queries.
pub mod Deletion
use Prim.Native.String.{◌++◌}
use go_build_cache.Prelude.{
  ℕ, suc, String, Bool, true, false, not, ◌&&◌, List, [], ◌∷◌, map, if◌then◌else◌, str_eq,
}
use go_build_cache.Prelude.Exec.{Result, ok, err, Done, pure, raise, lift, reject, ◌>>=◌, ◌>>◌}
use go_build_cache.Prelude.Int64.{add64, sub64, lt64, minus_one}
use go_build_cache.Model.{Time, Entry, Pin, ChunkRef, Namespace, active}
use go_build_cache.Errors.{Error, not_found, plain}
use go_build_cache.Store.{MemoryStore}
use go_build_cache.Store.Entries.{list_entries}
use go_build_cache.Store.Pins.{list_pins, delete_pin}
use go_build_cache.Store.Sessions as Stored
use go_build_cache.Cache.{
  Cache, M, clock_now, next_reading, tick, query, look, write, norm_namespace, require_namespace,
}

-- The namespace under a new quota, whether it was there or not.
abbrev pub with_quota : String → ℕ → Time → Result Error Namespace → Result Error Namespace
with_quota name max_bytes now (ok ns) = ok (record ns { max_bytes = max_bytes; updated_at = now })
with_quota name max_bytes now (err not_found) =
    ok (record { name = name; max_bytes = max_bytes; created_at = now; updated_at = now })
with_quota name max_bytes now (err e) = err e

-- Cache.SetNamespaceQuota
unfoldable pub set_namespace_quota : String → ℕ → M Namespace
set_namespace_quota name max_bytes = do
  reject (str_eq name "") (plain "buildcache: namespace name is required")
  reject (lt64 max_bytes 0) (plain "buildcache: max bytes must be non-negative")
  now ← clock_now
  ns ← query (λ m. with_quota name max_bytes now (Stored.get_namespace name m))
  write (Stored.save_namespace ns)
  pure ns

-- Cache.GetNamespace
unfoldable pub get_namespace : String → M Namespace
get_namespace name = query (require_namespace (norm_namespace name))

-- The loop that looks for an entry of the namespace; %q is written with plain quotes.
unfoldable pub no_entry_left : String → List Entry → Result Error Done
no_entry_left name [] = ok tt
no_entry_left name (e ∷ es) =
    let rest = no_entry_left name es in
    if str_eq e.namespace name
    then err (
        plain (
          "buildcache: namespace " ++ name ++ " not empty: entry \"" ++ e.key ++ "\" still exists"))
    else rest

-- The loop over the pins: an active one stops it, and those before it are gone by then.
unfoldable pub clear_pins : String → Time → List Pin → MemoryStore → Result Error Done × MemoryStore
clear_pins name now [] m = (ok tt, m)
clear_pins name now (p ∷ ps) m =
    let other = clear_pins name now ps m in
    let cleared = clear_pins name now ps (delete_pin name p.key m) in
    if not (str_eq p.namespace name)
    then other
    else if active p now
    then (
      err (
          plain
            ("buildcache: namespace " ++ name ++ " not empty: key \"" ++ p.key ++ "\" is pinned")),
      m,
    )
    else cleared

-- Cache.DeleteNamespace
unfoldable pub delete_namespace : String → M Done
delete_namespace name = do
  query (require_namespace name)
  query (λ m. no_entry_left name (list_entries m))
  now ← clock_now
  (λ (c : Cache).
      let r = clear_pins name now (list_pins c.store) c.store in (r.0, record c { store = r.1 }))
  write (Stored.delete_namespace name)

pub record NamespaceStatus : Type 0 where
  pub namespace : String
  pub max_bytes : ℕ
  pub used_bytes : ℕ
  pub free_bytes : ℕ
  pub entry_count : ℕ
  pub pinned_keys : ℕ
  pub pinned_bytes : ℕ
  pub updated_at : Time

abbrev pub chunk_bytes : ℕ → List ChunkRef → ℕ
chunk_bytes n [] = n
chunk_bytes n (ch ∷ chs) = chunk_bytes (add64 n ch.size) chs

-- One entry and one pin of the two loops.
abbrev pub count_entry : String → Entry → NamespaceStatus → NamespaceStatus
count_entry name e st = if not (str_eq e.namespace name) then st else record st {
  used_bytes = add64 st.used_bytes e.total_size;
  entry_count = suc st.entry_count;
}

abbrev pub count_pin : String → Time → Pin → NamespaceStatus → NamespaceStatus
count_pin name now p st =
    if str_eq p.namespace name && active p now
    then record st {
      pinned_keys = suc st.pinned_keys;
      pinned_bytes = add64 st.pinned_bytes (chunk_bytes 0 p.chunks);
    }
    else st

abbrev pub count_entries : String → List Entry → NamespaceStatus → NamespaceStatus
count_entries name [] st = st
count_entries name (e ∷ es) st = count_entries name es (count_entry name e st)

abbrev pub count_pins : String → Time → List Pin → NamespaceStatus → NamespaceStatus
count_pins name now [] st = st
count_pins name now (p ∷ ps) st = count_pins name now ps (count_pin name now p st)

-- namespaceStatusLocked
unfoldable pub namespace_status_locked : Namespace → Time → MemoryStore → NamespaceStatus
namespace_status_locked ns now m =
    let empty : NamespaceStatus = record {
      namespace = ns.name;
      max_bytes = ns.max_bytes;
      used_bytes = 0;
      free_bytes = minus_one;
      entry_count = 0;
      pinned_keys = 0;
      pinned_bytes = 0;
      updated_at = ns.updated_at;
    } in
    let st = count_pins ns.name now (list_pins m) (count_entries ns.name (list_entries m) empty) in
    if lt64 0 ns.max_bytes then record st { free_bytes = sub64 ns.max_bytes st.used_bytes } else st

-- Cache.NamespaceStatus
unfoldable pub namespace_status : String → M NamespaceStatus
namespace_status name = do
  ns ← query (require_namespace (norm_namespace name))
  now ← clock_now
  look (namespace_status_locked ns now)

-- Cache.ListNamespaceStatus; every namespace takes a reading of its own
unfoldable pub status_of_each : List Namespace → Cache → List NamespaceStatus × Cache
status_of_each [] c = ([], c)
status_of_each (ns ∷ nss) c =
    let rest = status_of_each nss (tick c) in
    (namespace_status_locked ns (next_reading c) c.store ∷ rest.0, rest.1)

unfoldable pub list_namespace_status : M (List NamespaceStatus)
list_namespace_status c = let r = status_of_each (Stored.list_namespaces c.store) c in (ok r.0, r.1)
