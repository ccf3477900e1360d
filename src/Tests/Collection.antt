-- ===== src/Tests/Collection.antt =====
-- Garbage collections at a concrete cache.
use go_build_cache.Prelude.{◌≡◌, refl, true, inl, [], ◌∷◌, if◌then◌else◌}
use go_build_cache.Prelude.Exec.{ok, err}
use go_build_cache.Prelude.Maps.{get, put, string_eq}
use go_build_cache.Digest.{Digest, valid, validate_hex, to_string}
use go_build_cache.Digest.RoundTrip.{parse_digest-to_string}
use go_build_cache.Errors.{blob_not_found}
use go_build_cache.Store.{MemoryStore, new_memory_store}
use go_build_cache.Store.Blobs.{get_blob, put_blob}
use go_build_cache.Store.Invariant.{IsKeyed, IsKeyed-new, put_entries-IsKeyed}
use go_build_cache.Cache.{Cache, next_reading}
use go_build_cache.Cache.Collection.Collect.{GcReport, collect_garbage}
use go_build_cache.Cache.Collection.Live.{in_use, named}
use go_build_cache.Cache.Collection.Precise.{collect_garbage-precise}
use go_build_cache.Cache.Collection.Total.{AllNamed, collect_garbage-total, put_blob-AllNamed}
use go_build_cache.Store.Entries.Swap.{stored}
use go_build_cache.Model.{ChunkRef}
use go_build_cache.Store.Promotions.{get_promotion}
use go_build_cache.Cache.Promotions.Protection.{collect_garbage-prepared}
use go_build_cache.Tests.{sha, app, lib, cache_on}
use go_build_cache.Tests.Promotions.{to_prod}

-- A digest that no entry has.
abbrev other : Digest
other = record {
  algo = "sha256";
  hex = "0000000000000000000000000000000000000000000000000000000000000000";
}

sha-valid : valid sha ≡ true
unfolding valid validate_hex
sha-valid = refl

other-valid : valid other ≡ true
unfolding valid validate_hex
other-valid = refl

abbrev blobs_only : MemoryStore
blobs_only = record new_memory_store {
  blobs = (to_string sha, []) ∷ (to_string other, 1 ∷ []) ∷ [];
}

abbrev littered : Cache
littered = cache_on (stored lib (stored app blobs_only))

blobs_only-IsKeyed : IsKeyed blobs_only
blobs_only-IsKeyed = record {
  unique_entries = IsKeyed-new.unique_entries;
  unique_pins = IsKeyed-new.unique_pins;
  unique_sessions = IsKeyed-new.unique_sessions;
  entries_at = IsKeyed-new.entries_at;
  pins_at = IsKeyed-new.pins_at;
  sessions_at = IsKeyed-new.sessions_at;
}

littered-IsKeyed : IsKeyed littered.store
littered-IsKeyed =
    put_entries-IsKeyed (stored app blobs_only)
      (put_entries-IsKeyed blobs_only blobs_only-IsKeyed app) lib

littered-AllNamed : AllNamed littered.store.blobs
littered-AllNamed = (
  (sha, parse_digest-to_string sha sha-valid),
  ((other, parse_digest-to_string other other-valid), tt),
)

collect_garbage-total_example : (report : GcReport) × ((collect_garbage littered).0 ≡ ok report)
collect_garbage-total_example = collect_garbage-total littered littered-AllNamed

-- The same, for use below.
littered_report : (report : GcReport) × ((collect_garbage littered).0 ≡ ok report)
littered_report = collect_garbage-total littered littered-AllNamed

collect_garbage-precise_example : get_blob other (collect_garbage littered).1.store ≡ (
    if in_use (next_reading littered) littered.store (named (to_string other))
    then get_blob other littered.store
    else err blob_not_found)
collect_garbage-precise_example =
    collect_garbage-precise littered littered_report.0 other littered-IsKeyed littered_report.1

put_blob-AllNamed_example : AllNamed (put (to_string sha) [] [])
put_blob-AllNamed_example =
    put_blob-AllNamed sha [] new_memory_store
      (record new_memory_store { blobs = put (to_string sha) [] [] }) tt
      (unfold put_blob valid validate_hex in refl)

-- A store in which only a prepared promotion still refers to the content of "app".
abbrev only_prepared : Cache
only_prepared = cache_on (record blobs_only { promotions = ("promo-1", to_prod) ∷ [] })

only_prepared-IsKeyed : IsKeyed only_prepared.store
only_prepared-IsKeyed = record {
  unique_entries = IsKeyed-new.unique_entries;
  unique_pins = IsKeyed-new.unique_pins;
  unique_sessions = IsKeyed-new.unique_sessions;
  entries_at = IsKeyed-new.entries_at;
  pins_at = IsKeyed-new.pins_at;
  sessions_at = IsKeyed-new.sessions_at;
}

prepared_report : (report : GcReport) × ((collect_garbage only_prepared).0 ≡ ok report)
prepared_report = collect_garbage-total only_prepared littered-AllNamed

promotion_found : get_promotion "promo-1" only_prepared.store ≡ ok to_prod
unfolding get_promotion get
promotion_found = refl

abbrev app_chunk : ChunkRef
app_chunk = record { index = 0; size = 40; digest = sha }

collect_garbage-prepared_example :
    get_blob sha (collect_garbage only_prepared).1.store ≡ get_blob sha only_prepared.store
collect_garbage-prepared_example =
    collect_garbage-prepared only_prepared prepared_report.0 "promo-1" to_prod app_chunk
      only_prepared-IsKeyed promotion_found refl (inl refl) prepared_report.1
