-- ===== src/Cache/Promotions/Queries.antt =====
-- promotion.go: GetPromotion, ListPromotions and GetPromotionDetail.
use go_build_cache.Prelude.{
  ℕ, String, Bool, true, false, ◌&&◌, ◌||◌, Option, none, some, List, [], ◌∷◌, keep, length,
  sort_by, str_eq, ◌==◌, if◌then◌else◌,
}
use go_build_cache.Prelude.Exec.{Result, ok, err, ◌>>=◌}
use go_build_cache.Prelude.Int64.{sub64}
use go_build_cache.Prelude.Maps.{Map, get, put, string_eq}
use go_build_cache.Digest.{Digest, no_digest, to_string}
use go_build_cache.Model.{
  Time, ChunkRef, Entry, Promotion, PromotionStatus, promotion_prepared, promotion_committed,
  promotion_failed, EvictionCandidate, EvictionDecision,
}
use go_build_cache.Errors.{Error}
use go_build_cache.Store.{MemoryStore}
use go_build_cache.Store.Entries.{get_entry, list_entries}
use go_build_cache.Store.Promotions as Stored
use go_build_cache.Reader.{ref_before}
use go_build_cache.Cache.{M, clock_now, query, look}
use go_build_cache.Cache.Eviction.Commit.{is_deleted}
use go_build_cache.Cache.Collection.Mark.{is_prepared}
use go_build_cache.Cache.Collection.References.{BlobReference, blob_references_locked}
use go_build_cache.Cache.Promotions.Phases.{freed_by}

-- Cache.GetPromotion; the identifier that the wrapped error adds to its text is not modelled
unfoldable pub find_promotion : String → M Promotion
find_promotion id = query (Stored.get_promotion id)

abbrev pub statuses_match : PromotionStatus → PromotionStatus → Bool
statuses_match promotion_prepared promotion_prepared = true
statuses_match promotion_committed promotion_committed = true
statuses_match promotion_failed promotion_failed = true
statuses_match _ _ = false

-- An empty status is `none`.
pub record PromotionFilters : Type 0 where
  pub namespace : String
  pub request_id : String
  pub status : Option PromotionStatus

abbrev pub has_status : Option PromotionStatus → PromotionStatus → Bool
has_status none s = true
has_status (some want) s = statuses_match s want

unfoldable pub passes : PromotionFilters → Promotion → Bool
passes filters p =
    (str_eq filters.namespace ""
      || (str_eq p.source_namespace filters.namespace
          || str_eq p.target_namespace filters.namespace))
    && ((str_eq filters.request_id "" || str_eq p.request_id filters.request_id)
        && has_status filters.status p.status)

-- Cache.ListPromotions
unfoldable pub find_promotions : PromotionFilters → M (List Promotion)
find_promotions filters = look λ m. keep (passes filters) (Stored.list_promotions m)

pub record PromotionQuotaChange : Type 0 where
  pub namespace : String
  pub max_bytes : ℕ
  pub used_before : ℕ
  pub used_after : ℕ
  pub freed_bytes : ℕ
  pub entry_count_before : ℕ
  pub entry_count_after : ℕ

pub record PromotionEnd : Type 0 where
  pub namespace : String
  pub key : String
  pub exists : Bool
  pub version : ℕ
  pub digest : Digest
  pub size : ℕ

pub record PromotionChunkSource : Type 0 where
  pub index : ℕ
  pub size : ℕ
  pub digest : Digest
  pub referenced_by_promotion : Bool
  pub references : List BlobReference

pub record PromotionDetail : Type 0 where
  pub promotion : Promotion
  pub source : PromotionEnd
  pub target : PromotionEnd
  pub quota : PromotionQuotaChange
  pub chunks : List PromotionChunkSource

abbrev pub end_of : String → String → Result Error Entry → PromotionEnd
end_of namespace key (err e) = record {
  namespace = namespace;
  key = key;
  exists = false;
  version = 0;
  digest = no_digest;
  size = 0;
}
end_of namespace key (ok e) = record {
  namespace = namespace;
  key = key;
  exists = true;
  version = e.version;
  digest = e.digest;
  size = e.total_size;
}

-- promotionEndLocked
unfoldable pub promotion_end : String → String → MemoryStore → PromotionEnd
promotion_end namespace key m = end_of namespace key (get_entry namespace key m)

abbrev pub evicted_of : Option EvictionDecision → List EvictionCandidate
evicted_of none = []
evicted_of (some d) = keep (λ cand. is_deleted cand.outcome) d.candidates

-- committedEvicted
unfoldable pub committed_evicted : Promotion → List EvictionCandidate
committed_evicted p = evicted_of p.eviction

unfoldable pub entries_in : String → MemoryStore → ℕ
entries_in namespace m = length (keep (λ e. str_eq e.namespace namespace) (list_entries m))

-- The number of entries before the commit, an int that is worked out backwards from now.
unfoldable pub count_before : Promotion → ℕ → ℕ
count_before p after =
    let before = sub64 after (length (committed_evicted p)) in
    if p.target_base_version == 0 then sub64 before 1 else before

abbrev is_committed : PromotionStatus → Bool
is_committed promotion_committed = true
is_committed promotion_prepared = false
is_committed promotion_failed = false

unfoldable pub quota_change : Promotion → MemoryStore → PromotionQuotaChange
unfolding entries_in count_before committed_evicted
quota_change p m =
    let after = entries_in p.target_namespace m in
    record {
      namespace = p.target_namespace;
      max_bytes = p.quota.max_bytes;
      used_before = p.used_before;
      used_after = p.used_after;
      freed_bytes = freed_by p.eviction;
      entry_count_before = if is_committed p.status then count_before p after else 0;
      entry_count_after = if is_committed p.status then after else 0;
    }

abbrev pub listed_refs : Option (List BlobReference) → List BlobReference
listed_refs none = []
listed_refs (some refs) = refs

unfoldable pub chunk_sources :
    Bool → Map String (List BlobReference) → List ChunkRef → List PromotionChunkSource
chunk_sources prepared refs [] = []
chunk_sources prepared refs (ref ∷ chunks) =
    record {
      index = ref.index;
      size = ref.size;
      digest = ref.digest;
      referenced_by_promotion = prepared;
      references = listed_refs (get (to_string ref.digest) refs);
    }
    ∷ chunk_sources prepared refs chunks

-- The text of a time, which Go's library formats, is a parameter.
module _ (format_time : Time → String) where
  unfoldable pub refs_by_digest :
      Time
      → MemoryStore
      → List ChunkRef
      → Map String (List BlobReference)
      → Map String (List BlobReference)
  refs_by_digest now m [] refs = refs
  refs_by_digest now m (ref ∷ chunks) refs =
      refs_by_digest now m chunks
        (put (to_string ref.digest) (blob_references_locked format_time ref.digest now m) refs)

  unfoldable pub detail_of_promotion : Promotion → Time → MemoryStore → PromotionDetail
  unfolding quota_change promotion_end chunk_sources ref_before
  detail_of_promotion p now m = record {
    promotion = p;
    source = promotion_end p.source_namespace p.source_key m;
    target = promotion_end p.target_namespace p.target_key m;
    quota = quota_change p m;
    chunks =
        chunk_sources (is_prepared p.status) (refs_by_digest now m p.source_chunks [])
          (sort_by ref_before p.source_chunks);
  }

  -- Cache.GetPromotionDetail
  unfoldable pub get_promotion_detail : String → M PromotionDetail
  unfolding detail_of_promotion
  get_promotion_detail id = do
    now ← clock_now
    p ← query (Stored.get_promotion id)
    look (detail_of_promotion p now)
