-- ===== src/Cache/Collection/Total.antt =====
-- Garbage collections return, on stores that PutBlob has filled.
use go_build_cache.Prelude.{
  ℕ, String, ◌≡◌, refl, subst, true, List, [], ◌∷◌, length, str_eq, Bool-cases, inl, inr,
}
use go_build_cache.Prelude.Exec.{Result, ok, err, Result-cases}
use go_build_cache.Prelude.Int64.{add64}
use go_build_cache.Prelude.Maps.{Map, put, string_eq}
use go_build_cache.Digest.{Digest, valid, to_string, parse_digest}
use go_build_cache.Digest.RoundTrip.{parse_digest-to_string}
use go_build_cache.Model.{Time, Pin}
use go_build_cache.Errors.{Error}
use go_build_cache.Store.{MemoryStore, BlobInfo, Bytes}
use go_build_cache.Store.Blobs.{put_blob, list_blobs, blob_infos, add_info}
use go_build_cache.Cache.{Cache, next_reading}
use go_build_cache.Cache.Sessions.Sweep.{SweptSession}
use go_build_cache.Cache.Collection.Collect.{GcReport, sweep_blobs, collect_garbage}
use go_build_cache.Cache.Collection.Precise.{
  swept_sessions, swept_pins, swept, blobs-swept, collect_garbage-swept,
}

-- Every key of the blob map is the text of a digest.
abbrev pub AllNamed : Map String Bytes → Type 0
AllNamed [] = Unit {0}
AllNamed ((j, bytes) ∷ m) = ((d : Digest) × (parse_digest j ≡ ok d)) × AllNamed m

abbrev NamedResult : Result Error MemoryStore → Type 0
NamedResult (ok m) = AllNamed m.blobs
NamedResult (err e) = Unit {0}

add_info-ok :
    (j : String) (bytes : Bytes) (d : Digest) (rest : List BlobInfo)
    → parse_digest j ≡ ok d
    → add_info j bytes (ok rest) ≡ ok (record { digest = d; size = length bytes } ∷ rest)
unfolding add_info
add_info-ok j bytes d rest h = rw (add_info, h) refl

blob_infos-total :
    (m : Map String Bytes) → AllNamed m → (bs : List BlobInfo) × (blob_infos m ≡ ok bs)
unfolding blob_infos
blob_infos-total [] a = ([], refl)
blob_infos-total ((j, bytes) ∷ m) ((d, e), a) =
    let (bs, h) = blob_infos-total m a in
    (record { digest = d; size = length bytes } ∷ bs, rw h (add_info-ok j bytes d bs e))

list_blobs-total :
    (m n : MemoryStore)
    → AllNamed n.blobs
    → m.blobs ≡ n.blobs
    → (bs : List BlobInfo) × (list_blobs m ≡ ok bs)
unfolding list_blobs
list_blobs-total m n a e =
    let (bs, h) = blob_infos-total n.blobs a in
    let found : blob_infos m.blobs ≡ ok bs = rw e h in
    elim (Result-cases (list_blobs m)) [
      | inl (sorted, q) ↦ (sorted, q)
      | inr (x, q) ↦ absurd (cc (rw (list_blobs, found) at q))
    ]

sweep_blobs-ok :
    (start : Time) (gen : ℕ) (sessions : List SweptSession) (pins : List Pin) (c : Cache)
    (bs : List BlobInfo)
    → (report : GcReport) × ((sweep_blobs start gen sessions pins (ok bs) c).0 ≡ ok report)
unfolding sweep_blobs
sweep_blobs-ok start gen sessions pins c bs = (_, refl)

-- A garbage collection returns a report whenever every key of the blob map is the text of a digest.
pub collect_garbage-total :
    (c : Cache) → AllNamed c.store.blobs → (report : GcReport) × ((collect_garbage c).0 ≡ ok report)
collect_garbage-total c a =
    let (bs, l) = list_blobs-total (swept c).store c.store a (blobs-swept c) in
    let (report, e) =
      sweep_blobs-ok (next_reading c) (add64 c.gc_gen 1) (swept_sessions c).0 (swept_pins c).0
        (swept c) bs in
    (report, rw (collect_garbage-swept c, l, e) refl)

AllNamed-ok :
    {m m1 : MemoryStore}
    → ◌≡◌ {A = Result Error MemoryStore} (ok m) (ok m1)
    → AllNamed m.blobs
    → AllNamed m1.blobs
AllNamed-ok {m} {m1} e a = subst (λ (r : Result Error MemoryStore). NamedResult r) e a

put-AllNamed :
    (d : Digest) (bytes : Bytes) (m : Map String Bytes)
    → valid d ≡ true
    → AllNamed m
    → AllNamed (put (to_string d) bytes m)
unfolding put
put-AllNamed d bytes [] v a = ((d, parse_digest-to_string d v), tt)
put-AllNamed d bytes ((j, old) ∷ m) v a = elim (Bool-cases (str_eq j (to_string d))) [
  | inl y ↦ rw y ((d, parse_digest-to_string d v), a.1)
  | inr n ↦ rw n (a.0, put-AllNamed d bytes m v a.1)
]

-- PutBlob, which refuses digests that are not valid, keeps every key of the blob map the text of one.
pub put_blob-AllNamed :
    (d : Digest) (bytes : Bytes) (m m1 : MemoryStore)
    → AllNamed m.blobs
    → put_blob d bytes m ≡ ok m1
    → AllNamed m1.blobs
unfolding put_blob
put_blob-AllNamed d bytes m m1 a h = elim (Bool-cases (valid d)) [
  | inl y ↦ AllNamed-ok (rw (put_blob, y) at h) (put-AllNamed d bytes m.blobs y a)
  | inr n ↦ absurd (cc (rw (put_blob, n) at h))
]
