-- ===== src/Tests/Eviction.antt =====
-- Evictions at a concrete cache.
use go_build_cache.Prelude.{
  String, [], In, ◌≡◌, ◌+◌, ◌≤◌, ◌⊎◌, refl, arith, none, Option, eq_iff, sort_by, insert_by,
}
use go_build_cache.Prelude.Exec.{Result, ok, err}
use go_build_cache.Prelude.Maps.{get, put, delete, get-put, string_eq, values}
use go_build_cache.Prelude.Int64.{add64, sub64, le64, lt64}
use go_build_cache.Errors.{Error, quota_exceeded, entry_not_found}
use go_build_cache.Digest.{equal}
use go_build_cache.Store.Audit.{append_audit}
use go_build_cache.Model.{Entry, Namespace, EvictionCandidate, EvictionDecision, eviction_proposed}
use go_build_cache.Store.{entry_map_key, new_memory_store}
use go_build_cache.Store.Decisions.{save_decision, get_decision}
use go_build_cache.Store.Entries.{list_entries, entry_before, get_entry, delete_entry}
use go_build_cache.Store.Invariant.{IsKeyed, IsKeyed-new, put_entries-IsKeyed}
use go_build_cache.Store.Entries.Swap.{stored}
use go_build_cache.Store.Pins.{list_pins}
use go_build_cache.Cache.{Cache}
use go_build_cache.Cache.Eviction.Plan.{
  used_from, lru_before, is_candidate, snapshot, plan_eviction_locked, new_decision, is_pinned,
  choose, lru_candidates, namespace_used,
}
use go_build_cache.Cache.Eviction.Commit.{
  outcome_of, with_candidate, commit_eviction, commit_candidates, commit_eviction_locked,
}
use go_build_cache.Cache.Eviction.Quota.{enforce_quota, evict_for}
use go_build_cache.Cache.Eviction.Usage.{bytes_in}
use go_build_cache.Cache.Eviction.Chosen.{MayGo}
use go_build_cache.Cache.Eviction.Enough.{Proposes, plan_eviction_locked-Proposes}
use go_build_cache.Cache.Eviction.Deletions.{Left, found_at}
use go_build_cache.Cache.Eviction.Fits.{enforce_quota-fits, enforce_quota-spares}
use go_build_cache.Cache.Eviction.Refused.{excess, enforce_quota-refused}
use go_build_cache.Cache.Eviction.Twice.{commit_eviction-Left, commit_eviction-again}
use go_build_cache.Tests.{app, lib, two_entries, cache_on}

abbrev limited : Namespace
limited = record { name = "default"; max_bytes = 120; created_at = 1; updated_at = 1 }

two_entries-IsKeyed : IsKeyed two_entries
two_entries-IsKeyed =
    put_entries-IsKeyed (stored app new_memory_store)
      (put_entries-IsKeyed new_memory_store IsKeyed-new app) lib

two_entries-bytes : bytes_in "default" two_entries ≡ 100
unfolding put values entry_map_key
two_entries-bytes = refl

abbrev plan : EvictionDecision
plan = new_decision limited 30 "manual" "app" 10 1 two_entries

plan_eviction_locked-Proposes_example : Proposes "default" "app" 30 10 two_entries plan.candidates
unfolding plan_eviction_locked add64
plan_eviction_locked-Proposes_example =
    plan_eviction_locked-Proposes limited 30 "manual" "app" 10 (cache_on two_entries) plan
      two_entries-IsKeyed (omega arith) (rw two_entries-bytes (omega arith)) refl

-- The cache in which the plan has been written down.
abbrev planned : Cache
planned = cache_on (save_decision plan two_entries)

planned_decision : get_decision plan.id planned.store ≡ ok plan
unfolding get_decision save_decision new_decision
planned_decision =
    rw (get-put plan.id plan.id plan two_entries.decisions, (eq_iff plan.id plan.id).1 refl) refl

commit_eviction-Left_example :
    Left "default"
      (entry_map_key "default" "lib")
      (is_pinned "default" 10 (list_pins planned.store))
      plan.candidates
      (found_at (entry_map_key "default" "lib") planned.store)
      (found_at (entry_map_key "default" "lib") (commit_eviction plan.id planned).1.store)
unfolding new_decision
commit_eviction-Left_example =
    commit_eviction-Left plan.id plan planned (entry_map_key "default" "lib") planned_decision

commit_eviction-again_example :
    commit_eviction plan.id (commit_eviction plan.id planned).1 ≡ commit_eviction plan.id planned
commit_eviction-again_example = commit_eviction-again plan.id plan planned planned_decision refl

-- What the check returns for a new "app" of 80 bytes, which "lib" has to make room for.
abbrev returned : Result Error (Option EvictionDecision) → Option EvictionDecision
returned (ok r) = r
returned (err e) = none

abbrev check : Result Error (Option EvictionDecision)
check = (enforce_quota limited "app" 40 80 10 (cache_on two_entries)).0

check_passes : check ≡ ok (returned check)
unfolding enforce_quota evict_for plan_eviction_locked new_decision commit_eviction_locked
    commit_candidates outcome_of with_candidate choose snapshot lru_candidates lru_before
    is_candidate is_pinned namespace_used used_from list_entries entry_before sort_by insert_by
    values list_pins get put delete delete_entry get_entry entry_map_key save_decision append_audit
    add64 sub64 le64 lt64 equal
check_passes = refl

enforce_quota-fits_example :
    bytes_in "default" (enforce_quota limited "app" 40 80 10 (cache_on two_entries)).1.store + 80
    ≤ limited.max_bytes + 40
enforce_quota-fits_example =
    enforce_quota-fits limited "app" 40 80 10 (cache_on two_entries) (returned check)
      two_entries-IsKeyed (omega arith) (omega arith) (rw two_entries-bytes (omega arith))
      (rw two_entries-bytes (omega arith)) check_passes

enforce_quota-spares_example :
    (found_at
        (entry_map_key "default" "app")
        (enforce_quota limited "app" 40 80 10 (cache_on two_entries)).1.store
      ≡ found_at (entry_map_key "default" "app") two_entries)
    ⊎ ((e : Entry) × (found_at (entry_map_key "default" "app") two_entries ≡ ok e)
        × MayGo "default" "app" 10 two_entries e)
enforce_quota-spares_example =
    enforce_quota-spares limited "app" 40 80 10 (cache_on two_entries)
      (entry_map_key "default" "app") two_entries-IsKeyed

-- What is planned for a new "app" of 200 bytes: "lib", which is not enough.
abbrev room_planned : Result Error EvictionDecision
room_planned =
    (plan_eviction_locked limited (excess limited 40 200 (cache_on two_entries)) "quota_on_publish"
      "app" 10 (cache_on two_entries)).0

abbrev too_big : Result Error (Option EvictionDecision) × Cache
too_big = enforce_quota limited "app" 40 200 10 (cache_on two_entries)

abbrev decision_of : Result Error EvictionDecision → EvictionDecision
decision_of (ok d) = d
decision_of (err e) = record {
  id = "";
  namespace = "";
  reason = "";
  max_bytes = 0;
  used_before = 0;
  needed_bytes = 0;
  freed_bytes = 0;
  candidates = [];
  status = eviction_proposed;
  decided_at = 0;
  committed_at = 0;
}

plan_made : room_planned ≡ ok (decision_of room_planned)
unfolding plan_eviction_locked
plan_made = refl

check_refuses : too_big.0 ≡ err (quota_exceeded "default" 120 100 140 60)
unfolding enforce_quota evict_for plan_eviction_locked new_decision commit_eviction_locked
    commit_candidates outcome_of with_candidate choose snapshot lru_candidates lru_before
    is_candidate is_pinned namespace_used used_from list_entries entry_before sort_by insert_by
    values list_pins get put delete delete_entry get_entry entry_map_key save_decision append_audit
    add64 sub64 le64 lt64 equal
check_refuses = refl

-- "lib" is gone, although nothing is published.
lib_gone : found_at (entry_map_key "default" "lib") too_big.1.store ≡ err entry_not_found
unfolding enforce_quota evict_for plan_eviction_locked new_decision commit_eviction_locked
    commit_candidates outcome_of with_candidate choose snapshot lru_candidates lru_before
    is_candidate is_pinned namespace_used used_from list_entries entry_before sort_by insert_by
    values list_pins get put delete delete_entry get_entry entry_map_key save_decision append_audit
    add64 sub64 le64 lt64 equal
lib_gone = refl

enforce_quota-refused_example :
    ((cand : EvictionCandidate)
      → In cand (decision_of room_planned).candidates
      → found_at (entry_map_key "default" cand.key) too_big.1.store ≡ err entry_not_found)
    × ((k : String)
        → (found_at k too_big.1.store ≡ found_at k two_entries)
          ⊎ ((cand : EvictionCandidate) × In cand (decision_of room_planned).candidates
              × (entry_map_key "default" cand.key ≡ k)))
enforce_quota-refused_example =
    enforce_quota-refused limited "app" 40 200 10 (cache_on two_entries)
      (quota_exceeded "default" 120 100 140 60) (decision_of room_planned) two_entries-IsKeyed
      check_refuses plan_made
