-- ===== src/Cache/Collection/Mark.antt =====
-- cache.go: the blobs that something refers to.
use go_build_cache.Prelude.{String, Bool, true, false, not, ◌&&◌, List, [], ◌∷◌, if◌then◌else◌, any}
use go_build_cache.Prelude.Exec.{Done}
use go_build_cache.Prelude.Maps.{Map, put, values, string_eq}
use go_build_cache.Digest.{Digest, to_string, equal}
use go_build_cache.Model.{
  Time, ChunkRef, ChunkReceipt, Entry, Session, Pin, active, Promotion, PromotionStatus,
  promotion_prepared, promotion_committed, promotion_failed,
}
use go_build_cache.Store.{MemoryStore}
use go_build_cache.Store.Entries.{list_entries}
use go_build_cache.Store.Sessions.{list_sessions}
use go_build_cache.Store.Pins.{list_pins}
use go_build_cache.Store.Promotions.{list_promotions}
use go_build_cache.Cache.Sessions.Sweep.{expired, is_open}

-- A Go set of texts.
abbrev pub TextSet : Type 0
TextSet = Map String Done

abbrev pub is_prepared : PromotionStatus → Bool
is_prepared promotion_prepared = true
is_prepared promotion_committed = false
is_prepared promotion_failed = false

abbrev pub protects : Time → Session → Bool
protects now s = is_open s.status && not (expired s now)

-- What each object refers to.
abbrev pub chunk_digests : List ChunkRef → List Digest
chunk_digests [] = []
chunk_digests (ref ∷ refs) = ref.digest ∷ chunk_digests refs

abbrev pub receipt_digests : List ChunkReceipt → List Digest
receipt_digests [] = []
receipt_digests (rec ∷ recs) = rec.digest ∷ receipt_digests recs

abbrev pub entry_digests : Entry → List Digest
entry_digests e = chunk_digests e.chunks

abbrev pub session_digests : Time → Session → List Digest
session_digests now s = if protects now s then receipt_digests (values s.received) else []

abbrev pub pin_digests : Time → Pin → List Digest
pin_digests now p = if active p now then chunk_digests p.chunks else []

abbrev pub promotion_digests : Promotion → List Digest
promotion_digests p = if is_prepared p.status then chunk_digests p.source_chunks else []

-- The inner loop of each of the four loops of buildLiveSet.
unfoldable pub mark : List Digest → TextSet → TextSet
mark [] live = live
mark (d ∷ ds) live = mark ds (put (to_string d) tt live)

-- The outer loop.
unfoldable pub mark_each : {A : Type 0} → (A → List Digest) → List A → TextSet → TextSet
unfolding mark
mark_each digests [] live = live
mark_each digests (x ∷ xs) live = mark_each digests xs (mark (digests x) live)

unfoldable pub build_live_set : Time → MemoryStore → TextSet
build_live_set now m =
    let entries = mark_each entry_digests (list_entries m) [] in
    let sessions = mark_each (session_digests now) (list_sessions m) entries in
    let pins = mark_each (pin_digests now) (list_pins m) sessions in
    mark_each promotion_digests (list_promotions m) pins

abbrev pub refers : {A : Type 0} → (A → List Digest) → (Digest → Bool) → List A → Bool
refers digests p = any λ x. any p (digests x)

unfoldable pub death_reason : Digest → Time → MemoryStore → String
death_reason d now m =
    let same = λ (ref : Digest). equal ref d in
    if refers entry_digests same (list_entries m)
    then ""
    else if refers (session_digests now) same (list_sessions m)
    then ""
    else if refers (pin_digests now) same (list_pins m)
    then ""
    else if refers promotion_digests same (list_promotions m)
    then ""
    else "not referenced by any published key, active session, active pin, or prepared promotion"
