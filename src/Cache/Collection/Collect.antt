-- ===== src/Cache/Collection/Collect.antt =====
-- cache.go: CollectGarbage.
use Prim.Native.String.{◌++◌}
use go_build_cache.Prelude.{
  ℕ, String, Bool, true, false, Option, none, some, List, [], ◌∷◌, str_eq, length,
}
use go_build_cache.Prelude.Exec.{Result, ok, err, Done}
use go_build_cache.Prelude.Int64.{add64}
use go_build_cache.Prelude.Maps.{get, string_eq}
use go_build_cache.Prelude.Text.{decimal}
use go_build_cache.Digest.{Digest, no_digest, to_string}
use go_build_cache.Model.{
  Time, Pin, GcAction, GcRecord, gc_start, gc_skip_in_use, gc_delete, gc_finish,
}
use go_build_cache.Errors.{Error}
use go_build_cache.Store.{BlobInfo}
use go_build_cache.Store.Audit.{append_audit}
use go_build_cache.Store.Blobs.{delete_blob, list_blobs}
use go_build_cache.Store.Sessions.{list_sessions}
use go_build_cache.Store.Pins.{list_pins}
use go_build_cache.Cache.{Cache, M, next_reading, tick}
use go_build_cache.Cache.Pins.Sweep.{sweep_pins}
use go_build_cache.Cache.Sessions.Sweep.{SweptSession, sweep_sessions}
use go_build_cache.Cache.Collection.Mark.{TextSet, build_live_set, death_reason}

pub record DeletedBlob : Type 0 where
  pub digest : Digest
  pub size : ℕ
  pub reason : String

pub record GcReport : Type 0 where
  pub generation : ℕ
  pub started_at : Time
  pub finished_at : Time
  pub live_blob_count : ℕ
  pub deleted_blobs : List DeletedBlob
  pub swept_sessions : List SweptSession
  pub swept_pins : List Pin

abbrev pub gc_record : Time → ℕ → GcAction → Digest → String → GcRecord
gc_record now gen action blob detail = record {
  time = now;
  generation = gen;
  action = action;
  blob = blob;
  key = "";
  session_id = "";
  reason = "";
  detail = detail;
}

abbrev pub is_live : Option Done → Bool
is_live none = false
is_live (some u) = true

-- A reference that has come up between the mark and the deletion keeps the blob.
unfoldable pub skip_blob : ℕ → BlobInfo → Cache → Cache
skip_blob gen b c = record (tick c) {
  store =
      append_audit
        (gc_record (next_reading c) gen gc_skip_in_use b.digest
          "reference appeared between mark and delete")
        c.store;
}

unfoldable pub remove_blob : ℕ → BlobInfo → String → Cache → Cache
remove_blob gen b reason c = record (tick c) {
  store =
      append_audit (gc_record (next_reading c) gen gc_delete b.digest reason)
        (delete_blob b.digest c.store);
}

-- What happens to one listed blob, by whether it is marked and whether a reference to it has come up.
abbrev pub after_blob : Bool → Bool → ℕ → BlobInfo → String → Cache → Cache
after_blob true refound gen b reason c = c
after_blob false true gen b reason c = skip_blob gen b c
after_blob false false gen b reason c = remove_blob gen b reason c

abbrev pub with_deleted : Bool → Bool → BlobInfo → String → List DeletedBlob → List DeletedBlob
with_deleted true refound b reason rest = rest
with_deleted false true b reason rest = rest
with_deleted false false b reason rest =
    record { digest = b.digest; size = b.size; reason = reason } ∷ rest

-- The loop over the listed blobs.
unfoldable pub collect_blobs : Time → ℕ → TextSet → List BlobInfo → Cache → List DeletedBlob × Cache
collect_blobs start gen live [] c = ([], c)
collect_blobs start gen live (b ∷ bs) c =
    let marked = is_live (get (to_string b.digest) live) in
    let reason = death_reason b.digest start c.store in
    let refound = str_eq reason "" in
    let rest = collect_blobs start gen live bs (after_blob marked refound gen b reason c) in
    (with_deleted marked refound b reason rest.0, rest.1)

-- The state in which the marking begins: a new generation, dead sessions and expired leases swept.
unfoldable pub begin_collection : Cache → Cache
begin_collection c = record (tick c) {
  store =
      append_audit
        (gc_record (next_reading c) (add64 c.gc_gen 1) gc_start no_digest
          "garbage collection started")
        c.store;
  gc_gen = add64 c.gc_gen 1;
}

pub finish_detail : GcReport → String
finish_detail r =
    "live="
    ++ decimal r.live_blob_count
    ++ " deleted="
    ++ decimal (length r.deleted_blobs)
    ++ " swept_sessions="
    ++ decimal (length r.swept_sessions)
    ++ " swept_pins="
    ++ decimal (length r.swept_pins)

-- From the list of blobs on.
unfoldable pub sweep_blobs :
    Time → ℕ → List SweptSession → List Pin → Result Error (List BlobInfo) → M GcReport
unfolding finish_detail
sweep_blobs start gen sessions pins (err e) c = (err e, c)
sweep_blobs start gen sessions pins (ok blobs) c =
    let live = build_live_set start c.store in
    let r = collect_blobs start gen live blobs c in
    let report : GcReport = record {
      generation = gen;
      started_at = start;
      finished_at = next_reading r.1;
      live_blob_count = length live;
      deleted_blobs = r.0;
      swept_sessions = sessions;
      swept_pins = pins;
    } in
    (
      ok report,
      record (tick r.1) {
        store =
            append_audit
              (gc_record (next_reading r.1) gen gc_finish no_digest (finish_detail report))
              r.1.store;
      },
    )

-- Cache.CollectGarbage
unfoldable pub collect_garbage : M GcReport
collect_garbage c =
    let start = next_reading c in
    let c1 = begin_collection c in
    let s = sweep_sessions start c1.gc_gen (list_sessions c1.store) c1 in
    let p = sweep_pins start c1.gc_gen (list_pins s.1.store) s.1.store in
    let c2 : Cache = record (s.1) { store = p.1 } in
    sweep_blobs start c1.gc_gen s.0 p.0 (list_blobs c2.store) c2
