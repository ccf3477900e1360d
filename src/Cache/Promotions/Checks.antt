-- ===== src/Cache/Promotions/Checks.antt =====
-- What a commit of a promotion has checked when it succeeds.
use go_build_cache.Prelude.{
  String, ◌≡◌, refl, ap, ◌∙◌, Bool, true, false, Option, none, some, arith, inl, inr, Bool-cases,
  Option-cases, In, List, [], ◌∷◌,
}
use go_build_cache.Prelude.Exec.{Result, ok, err, Result-cases}
use go_build_cache.Prelude.Maps.{get, string_eq}
use go_build_cache.Digest.{equal}
use go_build_cache.Model.{
  Time, Entry, Namespace, Promotion, eviction_stale, EvictionDecision, EvictionCandidate,
}
use go_build_cache.Errors.{Error, not_found, entry_not_found}
use go_build_cache.Store.{MemoryStore, entry_map_key}
use go_build_cache.Store.Entries.{get_entry}
use go_build_cache.Store.Pins.{list_pins}
use go_build_cache.Cache.Eviction.Plan.{is_pinned}
use go_build_cache.Cache.{Cache, require_namespace}
use go_build_cache.Cache.Eviction.Deletions.{Untouched}
use go_build_cache.Cache.Promotions.Validate.{
  Verdict, passed, refused, and_then, check_source, check_quota, check_target, validate_promotion,
  entry_is_our_promotion, check_candidate, check_candidates, eviction_stale_detail,
}
use go_build_cache.Cache.Promotions.Apply.{apply_promotion}
use go_build_cache.Cache.Promotions.Commit.{stale_eviction, judged, resumed_or_checked}
use go_build_cache.Cache.Promotions.Failing.{fail_promotion-err}
use go_build_cache.Cache.Promotions.Writes.{target_key_of}

-- The source is as it was frozen, or is gone; the blobs are protected in both cases.
pub data Frozen (p : Promotion) (r : Result Error Entry) : Type 0 where
  gone : r ≡ err entry_not_found → Frozen p r
  unchanged :
      (e : Entry)
      → r ≡ ok e
      → e.version ≡ p.source_version
      → equal e.digest p.source_digest ≡ true
      → Frozen p r

-- The quota of the target's namespace is the one that the promotion was prepared under.
pub data SameQuota (p : Promotion) (r : Result Error Namespace) : Type 0 where
  same_quota :
      (ns : Namespace)
      → r ≡ ok ns
      → ns.max_bytes ≡ p.quota.max_bytes
      → ns.updated_at ≡ p.quota.updated_at
      → SameQuota p r

check_source-Frozen :
    (p : Promotion) (m : MemoryStore)
    → check_source p (get_entry p.source_namespace p.source_key m) ≡ ok passed
    → Frozen p (get_entry p.source_namespace p.source_key m)
unfolding check_source get_entry
check_source-Frozen p m h =
    elim (Option-cases (get (entry_map_key p.source_namespace p.source_key) m.entries)) [
      | inl g ↦ gone (rw g refl)
      | inr (e, g) ↦
          let k = rw g at h in unchanged e (rw g refl) (ground (arith, k)) (ground (arith, k))
    ]

-- The target's key is as it was when the promotion was prepared, or holds its entry already.
pub data AtBase (p : Promotion) (r : Result Error Entry) : Type 0 where
  free : r ≡ err entry_not_found → p.target_base_version ≡ 0 → AtBase p r
  held :
      (e : Entry)
      → r ≡ ok e
      → e.version ≡ p.target_base_version
      → equal e.digest p.target_existing_digest ≡ true
      → AtBase p r
  ours : (e : Entry) → r ≡ ok e → entry_is_our_promotion p e ≡ true → AtBase p r

check_target-AtBase :
    (p : Promotion) (m : MemoryStore)
    → check_target p (get_entry p.target_namespace p.target_key m) ≡ ok passed
    → AtBase p (get_entry p.target_namespace p.target_key m)
unfolding check_target get_entry
check_target-AtBase p m h = elim (Option-cases (get (target_key_of p) m.entries)) [
  | inl g ↦ let k = rw g at h in free (rw g refl) (ground (arith, k))
  | inr (e, g) ↦ elim (Bool-cases (entry_is_our_promotion p e)) [
    | inl y ↦ ours e (rw g refl) y
    | inr n ↦ let k = rw (g, n) at h in held e (rw g refl) (ground (arith, k)) (ground (arith, k))
  ]
]

-- The plan still stands: every candidate is as it was chosen, unread and unpinned.
pub record Stands (namespace : String) (pinned : String → Bool) (m : MemoryStore)
    (cand : EvictionCandidate) : Type 0 where
  pub entry : Entry
  pub found : get_entry namespace cand.key m ≡ ok entry
  pub untouched : Untouched cand entry
  pub unpinned : pinned cand.key ≡ false

check_candidate-Stands :
    (namespace : String) (pinned : String → Bool) (m : MemoryStore) (cand : EvictionCandidate)
    (r : Result Error Entry)
    → get_entry namespace cand.key m ≡ r
    → check_candidate (pinned cand.key) cand r ≡ none
    → Stands namespace pinned m cand
unfolding check_candidate
check_candidate-Stands namespace pinned m cand (err x) g h = absurd (cc h)
check_candidate-Stands namespace pinned m cand (ok e) g h = record {
  entry = e;
  found = g;
  untouched = record {
    same_version = ground (arith, h);
    same_digest = ground (arith, h);
    not_accessed = ground (arith, h);
  };
  unpinned = ground (arith, h);
}

check_candidates-Stands :
    (namespace : String) (pinned : String → Bool) (m : MemoryStore) (cands : List EvictionCandidate)
    (cand : EvictionCandidate)
    → check_candidates namespace pinned m cands ≡ none
    → In cand cands
    → Stands namespace pinned m cand
unfolding check_candidates
check_candidates-Stands namespace pinned m [] cand h i = elim i [ ]
check_candidates-Stands namespace pinned m (x ∷ xs) cand h i =
    elim (Option-cases (check_candidate (pinned x.key) x (get_entry namespace x.key m))) [
      | inr (d, e) ↦ absurd (cc (rw e at h))
      | inl e ↦ elim i [
        | inl q ↦ rw q (check_candidate-Stands namespace pinned m x _ refl e)
        | inr j ↦ check_candidates-Stands namespace pinned m xs cand (rw e at h) j
      ]
    ]

some-eq : {A : Type 0} (x y : A) → ◌≡◌ {A = Option A} (some x) (some y) → x ≡ y
some-eq x y q = cc

-- What a new commit has checked.
pub record Checked (p : Promotion) (now : Time) (m : MemoryStore) : Type 0 where
  pub source : Frozen p (get_entry p.source_namespace p.source_key m)
  pub quota : SameQuota p (require_namespace p.target_namespace m)
  pub target : AtBase p (get_entry p.target_namespace p.target_key m)
  pub plan :
      (d : EvictionDecision) (cand : EvictionCandidate)
      → p.eviction ≡ some d
      → In cand d.candidates
      → Stands d.namespace (is_pinned d.namespace now (list_pins m)) m cand

stale_eviction-Stands :
    (o : Option EvictionDecision) (now : Time) (m : MemoryStore) (d : EvictionDecision)
    (cand : EvictionCandidate)
    → stale_eviction o now m ≡ none
    → o ≡ some d
    → In cand d.candidates
    → Stands d.namespace (is_pinned d.namespace now (list_pins m)) m cand
unfolding eviction_stale_detail
stale_eviction-Stands none now m d cand h q i = absurd (cc q)
stale_eviction-Stands (some x) now m d cand h q i =
    check_candidates-Stands d.namespace (is_pinned d.namespace now (list_pins m)) m d.candidates
      cand (rw (some-eq x d q) at h) i

module _ (format_time : Time → String) where
  check_quota-SameQuota :
      (p : Promotion) (r : Result Error Namespace)
      → check_quota format_time p r ≡ ok passed
      → SameQuota p r
  unfolding check_quota
  check_quota-SameQuota p (err e) h = absurd (cc h)
  check_quota-SameQuota p (ok ns) h = same_quota ns refl (ground (arith, h)) (ground (arith, h))

  and_then-passed :
      (a b : Result Error Verdict) → and_then a b ≡ ok passed → (a ≡ ok passed) × (b ≡ ok passed)
  and_then-passed (ok passed) b h = (refl, h)
  and_then-passed (ok (refused r d)) b h = absurd (cc h)
  and_then-passed (err e) b h = absurd (cc h)

  validate_promotion-passed :
      (p : Promotion) (m : MemoryStore)
      → validate_promotion format_time p m ≡ ok passed
      → Frozen p (get_entry p.source_namespace p.source_key m)
        × SameQuota p (require_namespace p.target_namespace m)
        × AtBase p (get_entry p.target_namespace p.target_key m)
  unfolding validate_promotion
  validate_promotion-passed p m h =
      let (a, rest) = and_then-passed _ _ h in
      let (b, target) = and_then-passed _ _ rest in
      (check_source-Frozen p m a, check_quota-SameQuota p _ b, check_target-AtBase p m target)

  judged-Checked :
      (p q : Promotion) (now : Time) (c : Cache) (v : Verdict)
      → (judged format_time p now v c).0 ≡ ok q
      → (v ≡ passed)
        × (stale_eviction p.eviction now c.store ≡ none)
        × (judged format_time p now v c ≡ apply_promotion format_time p now c)
  judged-Checked p q now c (refused reason detail) h =
      absurd (cc (h, fail_promotion-err Promotion p reason detail now c))
  judged-Checked p q now c passed h = elim (Option-cases (stale_eviction p.eviction now c.store)) [
    | inl e ↦ (refl, e, rw e refl)
    | inr (d, e) ↦ absurd (cc (rw e at h, fail_promotion-err Promotion p eviction_stale d now c))
  ]

  -- A new commit that succeeds has passed every check, and is then applied.
  pub new_commit-Checked :
      (p q : Promotion) (now : Time) (c : Cache)
      → (resumed_or_checked format_time p now (err not_found) c).0 ≡ ok q
      → Checked p now c.store
        × (resumed_or_checked format_time p now (err not_found) c
            ≡ apply_promotion format_time p now c)
  new_commit-Checked p q now c h = elim (Result-cases (validate_promotion format_time p c.store)) [
    | inr (x, e) ↦ absurd (cc (rw e at h))
    | inl (v, e) ↦
        let (pass, fresh, runs) = judged-Checked p q now c v (rw e at h) in
        let (source, quota, target) = validate_promotion-passed p c.store (e ∙ ap ok pass) in
        (
          record {
            source = source;
            quota = quota;
            target = target;
            plan = λ d cand. stale_eviction-Stands p.eviction now c.store d cand fresh;
          },
          rw e runs,
        )
  ]
