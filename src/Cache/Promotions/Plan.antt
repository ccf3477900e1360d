-- ===== src/Cache/Promotions/Plan.antt =====
-- promotion.go: what a promotion may evict. A candidate holds none of the promoted chunks.
use go_build_cache.Prelude.{ℕ, String, Bool, not, ◌&&◌, List, [], ◌∷◌, any, keep, sort_by, str_eq}
use go_build_cache.Prelude.Exec.{ok}
use go_build_cache.Prelude.Int64.{add64}
use go_build_cache.Digest.{to_string}
use go_build_cache.Model.{Time, Entry, ChunkRef, Namespace, EvictionCandidate, EvictionDecision}
use go_build_cache.Store.{MemoryStore}
use go_build_cache.Store.Audit.{append_audit}
use go_build_cache.Store.Decisions.{save_decision}
use go_build_cache.Store.Entries.{list_entries}
use go_build_cache.Store.Pins.{list_pins}
use go_build_cache.Store.Sessions.{list_sessions}
use go_build_cache.Cache.{M, norm_namespace}
use go_build_cache.Cache.Sessions.Sweep.{expired, is_open}
use go_build_cache.Cache.Eviction.Plan.{
  is_candidate, lru_before, choose, new_decision, eviction_record, proposed_detail,
}

-- keyUploadingLocked
unfoldable pub key_uploading : String → String → Time → MemoryStore → Bool
key_uploading namespace key now m =
    any
      (λ s.
        str_eq (norm_namespace s.namespace) namespace
        && (str_eq s.key key && (is_open s.status && not (expired s now))))
      (list_sessions m)

-- entrySharesChunks; the set of protected texts is that of a list of references
unfoldable pub entry_shares_chunks : List ChunkRef → Entry → Bool
entry_shares_chunks protected e =
    any (λ ref. any (λ p. str_eq (to_string p.digest) (to_string ref.digest)) protected) e.chunks

unfoldable pub is_promotion_candidate :
    String → String → List ChunkRef → Time → MemoryStore → Entry → Bool
is_promotion_candidate namespace exclude_key protected now m e =
    is_candidate namespace exclude_key now (list_pins m) e && not (entry_shares_chunks protected e)

unfoldable pub promotion_candidates :
    String → String → List ChunkRef → Time → MemoryStore → List Entry
promotion_candidates namespace exclude_key protected now m =
    sort_by lru_before
      (keep (is_promotion_candidate namespace exclude_key protected now m) (list_entries m))

unfoldable pub new_promotion_decision :
    Namespace → ℕ → String → List ChunkRef → Time → ℕ → MemoryStore → EvictionDecision
unfolding new_decision
new_promotion_decision ns need exclude_key protected now seq m =
    record (new_decision ns need "quota_on_promotion" exclude_key now seq m) {
      candidates = choose ns.name need 0 (promotion_candidates ns.name exclude_key protected now m);
    }

-- planPromotionEvictionLocked
unfoldable pub plan_promotion_eviction :
    Namespace → ℕ → String → List ChunkRef → Time → M EvictionDecision
unfolding new_promotion_decision proposed_detail
plan_promotion_eviction ns need exclude_key protected now c =
    let seq = add64 c.evict_seq 1 in
    let d = new_promotion_decision ns need exclude_key protected now seq c.store in
    (
      ok d,
      record c {
        store =
            append_audit (eviction_record now ns.name (proposed_detail d))
              (save_decision d c.store);
        evict_seq = seq;
      },
    )

-- The sum of the sizes of the candidates, an int64.
unfoldable pub freeable_from : ℕ → List EvictionCandidate → ℕ
freeable_from sum [] = sum
freeable_from sum (cand ∷ cands) = freeable_from (add64 sum cand.size) cands
