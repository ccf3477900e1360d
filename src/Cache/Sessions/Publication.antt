-- ===== src/Cache/Sessions/Publication.antt =====
-- What a publication leaves at its key.
use go_build_cache.Prelude.{
  ℕ, String, ◌≡◌, refl, ap, ◌∙◌, Bool, true, false, Option, none, some, List, arith, eq_iff,
  Bool-cases, Option-cases, inl, inr, ◌⊎◌, ◌==◌, ==_iff,
}
use go_build_cache.Prelude.Exec.{Result, ok, err, Result-cases}
use go_build_cache.Prelude.Int64.{add64, minus_one}
use go_build_cache.Prelude.Maps.{get, string_eq}
use go_build_cache.Digest.{Digest, equal}
use go_build_cache.Model.{Time, Entry, Session, ChunkRef, Namespace, EvictionDecision}
use go_build_cache.Errors.{Error, entry_not_found}
use go_build_cache.Store.{MemoryStore, entry_map_key}
use go_build_cache.Store.Entries.{get_entry, put_entry}
use go_build_cache.Store.Entries.Swap.{stored, put_entry-ok, get_entry-stored}
use go_build_cache.Store.Invariant.{IsKeyed}
use go_build_cache.Cache.{Cache, norm_namespace, require_namespace}
use go_build_cache.Cache.Eviction.Quota.{enforce_quota}
use go_build_cache.Cache.Sessions.Publish.{
  PublishResult, entry_of, asks_version, publish_new, publish_same, publish_over, names_version,
  publish,
}
use go_build_cache.Cache.Sessions.Reading.{stored_entry}

-- How the new version stands to what was there: the first one on a free key; the one that is there,
-- where the content is the same; one more, where the caller has named the one that is there.
abbrev pub Follows : Digest → Option ℕ → Result Error Entry → ℕ → Type 0
Follows final expected (err x) v = v ≡ 1
Follows final expected (ok e) v =
    ((e.digest ≡ final) × (v ≡ e.version)) ⊎ ((expected ≡ some e.version) × (v ≡ add64 e.version 1))

pub equal-same : (d e : Digest) → equal d e ≡ true → d ≡ e
unfolding equal
equal-same d e h =
    let a : d.algo ≡ e.algo = (eq_iff d.algo e.algo).0 (ground (arith, h)) in
    let b : d.hex ≡ e.hex = (eq_iff d.hex e.hex).0 (ground (arith, h)) in
    λ i. record { algo = a i; hex = b i }

names_version-some :
    (expected : Option ℕ) (v : ℕ) → names_version expected v ≡ true → expected ≡ some v
names_version-some none v h = absurd (cc h)
names_version-some (some w) v h = ap (λ (n : ℕ). some n) ((==_iff w v).0 h)

-- A written entry is found at its own key.
found_stored :
    (e : Entry) (m m1 : MemoryStore) → stored e m ≡ m1 → get_entry e.namespace e.key m1 ≡ ok e
found_stored e m m1 h =
    let there = entry_map_key e.namespace e.key in
    rw (← h) (get_entry-stored e e.namespace e.key m ∙ rw ((eq_iff there there).1 refl) refl)

result_entry :
    (e : Entry) (b : Bool) (d : Option EvictionDecision) (r : PublishResult)
    → ◌≡◌ {A = Result Error PublishResult}
        (ok (record { entry = e; reused = b; eviction = d }))
        (ok r)
    → e ≡ r.entry
result_entry e b d r h = cc

-- What a write of the result's entry leaves.
written :
    (e f : Entry) (want : ℕ) (m m1 : MemoryStore)
    → put_entry e want m ≡ ok m1
    → e ≡ f
    → get_entry e.namespace e.key m1 ≡ ok f
written e f want m m1 h q =
    found_stored e m m1 (put_entry-ok e want m m1 h) ∙ ap (λ (x : Entry). ok x) q

-- The same entry under two names of its key.
moved :
    (ns key : String) (x : Entry) (m : MemoryStore) (f : Entry)
    → entry_map_key ns key ≡ entry_map_key x.namespace x.key
    → get_entry x.namespace x.key m ≡ ok f
    → get_entry ns key m ≡ ok f
unfolding get_entry
moved ns key x m f k h = rw k h

module _ (ns : Namespace) (s : Session) (refs : List ChunkRef) (now : Time) (expected : Option ℕ)
    (c : Cache) (r : PublishResult) where
  -- What each way to publish establishes.
  abbrev Leaves : Result Error PublishResult × Cache → (ℕ → Type 0) → Type 0
  Leaves out version =
      (get_entry (norm_namespace s.namespace) s.key out.1.store ≡ ok r.entry)
      × (r.entry.digest ≡ s.final_digest)
      × version r.entry.version

  publish_new-Leaves :
      (publish_new ns s refs now expected c).0 ≡ ok r
      → Leaves (publish_new ns s refs now expected c) (λ v. v ≡ 1)
  unfolding publish_new entry_of
  publish_new-Leaves h =
      let entry = entry_of (norm_namespace s.namespace) s 1 refs now in
      let q = enforce_quota ns s.key 0 s.total_size now c in
      elim (Bool-cases (asks_version expected)) [
        | inl y ↦ absurd (cc (rw y at h))
        | inr n ↦ elim (Result-cases q.0) [
          | inr (x, e) ↦ absurd (cc (rw (n, e) at h))
          | inl (d, e) ↦ elim (Result-cases (put_entry entry minus_one q.1.store)) [
            | inr (x, f) ↦ absurd (cc (rw (n, e, f) at h))
            | inl (m, f) ↦
                let q1 = result_entry entry false d r (rw (n, e, f) at h) in
                rw (n, e, f)
                  (written entry r.entry minus_one q.1.store m f q1, rw (← q1) refl, rw (← q1) refl)
          ]
        ]
      ]

  publish_over-Leaves :
      (x : Entry)
      → (publish_over ns s refs now expected x c).0 ≡ ok r
      → Leaves
          (publish_over ns s refs now expected x c)
          (λ v. (expected ≡ some x.version) × (v ≡ add64 x.version 1))
  unfolding publish_over entry_of
  publish_over-Leaves x h =
      let entry = entry_of (norm_namespace s.namespace) s (add64 x.version 1) refs now in
      let q = enforce_quota ns s.key x.total_size s.total_size now c in
      elim (Bool-cases (names_version expected x.version)) [
        | inr n ↦ absurd (cc (rw n at h))
        | inl y ↦ elim (Result-cases q.0) [
          | inr (z, e) ↦ absurd (cc (rw (y, e) at h))
          | inl (d, e) ↦ elim (Result-cases (put_entry entry x.version q.1.store)) [
            | inr (z, f) ↦ absurd (cc (rw (y, e, f) at h))
            | inl (m, f) ↦
                let q1 = result_entry entry false d r (rw (y, e, f) at h) in
                rw (y, e, f)
                  (
                    written entry r.entry x.version q.1.store m f q1,
                    rw (← q1) refl,
                    (names_version-some expected x.version y, rw (← q1) refl),
                  )
          ]
        ]
      ]

  publish_same-Leaves :
      (x : Entry)
      → get_entry (norm_namespace s.namespace) s.key c.store ≡ ok x
      → IsKeyed c.store
      → x.digest ≡ s.final_digest
      → (publish_same x now c).0 ≡ ok r
      → Leaves (publish_same x now c) (λ v. v ≡ x.version)
  unfolding publish_same
  publish_same-Leaves x g v same h =
      let entry : Entry = record x { last_accessed_at = now } in
      let home = stored_entry c.store (norm_namespace s.namespace) s.key x v g in
      elim (Bool-cases (x.last_accessed_at == now)) [
        | inl y ↦
            let q1 = result_entry x true none r (rw y at h) in
            rw y (g ∙ ap (λ (e : Entry). ok e) q1, rw (← q1) same, rw (← q1) refl)
        | inr n ↦ elim (Result-cases (put_entry entry x.version c.store)) [
          | inr (z, f) ↦ absurd (cc (rw (n, f) at h))
          | inl (m, f) ↦
              let q1 = result_entry entry true none r (rw (n, f) at h) in
              rw (n, f)
                (
                  moved (norm_namespace s.namespace) s.key x m r.entry home
                      (written entry r.entry x.version c.store m f q1),
                  rw (← q1) same,
                  rw (← q1) refl,
                )
        ]
      ]

pub get_entry-missing :
    (ns key : String) (m : MemoryStore) (x : Error)
    → get_entry ns key m ≡ err x
    → x ≡ entry_not_found
unfolding get_entry
get_entry-missing ns key m x h = elim (Option-cases (get (entry_map_key ns key) m.entries)) [
  | inl e ↦ cc (rw e at h)
  | inr (v, e) ↦ absurd (cc (rw e at h))
]

-- A publication that succeeds leaves the entry that it returns at the key, with the digest of the
-- session. On a free key its version is 1; where the same content is there, the version stays; over
-- other content it is one more than the version that is there, which the caller has named.
pub publish_lem :
    (s : Session) (refs : List ChunkRef) (now : Time) (expected : Option ℕ) (c : Cache)
    (r : PublishResult)
    → IsKeyed c.store
    → (publish s refs now expected c).0 ≡ ok r
    → (get_entry (norm_namespace s.namespace) s.key (publish s refs now expected c).1.store
        ≡ ok r.entry)
      × (r.entry.digest ≡ s.final_digest)
      × Follows s.final_digest expected
          (get_entry (norm_namespace s.namespace) s.key c.store)
          r.entry.version
unfolding publish
publish_lem s refs now expected c r v h =
    let n = norm_namespace s.namespace in
    elim (Result-cases (require_namespace n c.store)) [
      | inr (x, e) ↦ absurd (cc (rw e at h))
      | inl (ns, e) ↦ elim (Result-cases (get_entry n s.key c.store)) [
        | inr (x, g) ↦
            let free : get_entry n s.key c.store ≡ err entry_not_found =
              g ∙ ap (λ (y : Error). err y) (get_entry-missing n s.key c.store x g) in
            rw (e, free) (publish_new-Leaves ns s refs now expected c r (rw (e, free) at h))
        | inl (x, g) ↦ elim (Bool-cases (equal x.digest s.final_digest)) [
          | inl y ↦
              let same = equal-same x.digest s.final_digest y in
              let (a, b, w) =
                publish_same-Leaves ns s refs now expected c r x g v same (rw (e, g, y) at h) in
              rw (e, g, y) (a, b, inl (same, w))
          | inr q ↦
              let (a, b, w) =
                publish_over-Leaves ns s refs now expected c r x (rw (e, g, q) at h) in
              rw (e, g, q) (a, b, inr w)
        ]
      ]
    ]
