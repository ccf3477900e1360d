-- ===== src/Cache/Sessions/Room.antt =====
-- A publication keeps its namespace within the quota.
use Prim.Native.Char.{nul}
use Prim.Native.String.{◌++◌}
use text.Mathlib.TextLemmas.{nil-append, cons-append}
use go_build_cache.Prelude.{
  ℕ, ◌+◌, ◌<◌, ◌≤◌, String, ◌≡◌, refl, sym, ap, subst, ◌∙◌, true, false, Option, none, List, arith,
  Bool-cases, inl, inr, ◌==◌,
}
use go_build_cache.Prelude.Exec.{Result, ok, err, Result-cases}
use go_build_cache.Prelude.Int64.{add64, minus_one, two63}
use go_build_cache.Prelude.Maps.{string_eq}
use go_build_cache.Digest.{equal}
use go_build_cache.Model.{Time, Entry, Session, ChunkRef, Namespace, EvictionDecision}
use go_build_cache.Errors.{Error, entry_not_found}
use go_build_cache.Store.{MemoryStore, entry_map_key}
use go_build_cache.Store.Entries.{get_entry, put_entry}
use go_build_cache.Store.Entries.Swap.{put_entry-ok}
use go_build_cache.Store.Invariant.{IsKeyed}
use go_build_cache.Cache.{Cache, norm_namespace, require_namespace}
use go_build_cache.Cache.Eviction.Growth.{bytes_in-stored_free, bytes_in-stored_over, bytes_in-part}
use go_build_cache.Cache.Eviction.Usage.{bytes_in}
use go_build_cache.Cache.Eviction.Deletions.{found_at}
use go_build_cache.Cache.Eviction.Fits.{enforce_quota-fits, enforce_quota-spares}
use go_build_cache.Cache.Eviction.Quota.{enforce_quota}
use go_build_cache.Cache.Sessions.Publish.{
  PublishResult, entry_of, asks_version, publish_new, publish_same, publish_over, names_version,
  publish,
}
use go_build_cache.Cache.Sessions.Publication.{get_entry-missing}

append_cancel : (ns a b : String) → ns ++ String.◌∷◌ nul a ≡ ns ++ String.◌∷◌ nul b → a ≡ b
append_cancel String.[] a b h =
    ground (arith, nil-append (String.◌∷◌ nul a), nil-append (String.◌∷◌ nul b))
append_cancel (String.◌∷◌ c s) a b h = ground (
  arith,
  cons-append c s (String.◌∷◌ nul a),
  cons-append c s (String.◌∷◌ nul b),
  append_cancel s a b,
)

entry_map_key-cancel : (ns a b : String) → entry_map_key ns a ≡ entry_map_key ns b → a ≡ b
unfolding entry_map_key
entry_map_key-cancel ns a b h = append_cancel ns a b h

found_at-get :
    (ns key : String) (m : MemoryStore) → found_at (entry_map_key ns key) m ≡ get_entry ns key m
unfolding get_entry
found_at-get ns key m = refl

home_key :
    (ns key : String) (m : MemoryStore) (e : Entry)
    → IsKeyed m
    → get_entry ns key m ≡ ok e
    → entry_map_key ns key ≡ entry_map_key e.namespace e.key
unfolding get_entry
home_key ns key m e v h = v.entries_at (entry_map_key ns key) e (ground (arith, h))

-- The quota check leaves the key that is published as it is.
enforce_quota-key :
    (ns : Namespace) (key : String) (old new : ℕ) (now : Time) (c : Cache)
    → IsKeyed c.store
    → get_entry ns.name key (enforce_quota ns key old new now c).1.store
      ≡ get_entry ns.name key c.store
enforce_quota-key ns key old new now c v =
    let k = entry_map_key ns.name key in
    let c1 = (enforce_quota ns key old new now c).1 in
    elim (enforce_quota-spares ns key old new now c k v) [
      | inl q ↦ sym (found_at-get ns.name key c1.store) ∙ q ∙ found_at-get ns.name key c.store
      | inr (e, f, may) ↦
          let stands =
            home_key ns.name key c.store e v (sym (found_at-get ns.name key c.store) ∙ f) in
          absurd (
            may.not_excluded
              (sym (entry_map_key-cancel ns.name key e.key (stands ∙ rw may.inside refl))))
    ]

module _ (ns : Namespace) (s : Session) (refs : List ChunkRef) (now : Time) (expected : Option ℕ)
    (c : Cache) (r : PublishResult) (v : IsKeyed c.store)
    (name : ns.name ≡ norm_namespace s.namespace) (limited : 0 < ns.max_bytes)
    (small : ns.max_bytes < two63) (fits : bytes_in ns.name c.store + s.total_size < two63) where
  -- The key in the store that the quota check leaves, under the session's name of the namespace.
  checked_key :
      (old : ℕ)
      → get_entry
          (norm_namespace s.namespace)
          s.key
          (enforce_quota ns s.key old s.total_size now c).1.store
        ≡ get_entry (norm_namespace s.namespace) s.key c.store
  checked_key old =
      subst
        (λ (n : String).
          get_entry n s.key (enforce_quota ns s.key old s.total_size now c).1.store
          ≡ get_entry n s.key c.store)
        name (enforce_quota-key ns s.key old s.total_size now c v)

  publish_new-room :
      get_entry (norm_namespace s.namespace) s.key c.store ≡ err entry_not_found
      → (publish_new ns s refs now expected c).0 ≡ ok r
      → bytes_in ns.name (publish_new ns s refs now expected c).1.store ≤ ns.max_bytes
  unfolding publish_new entry_of
  publish_new-room g h =
      let entry = entry_of (norm_namespace s.namespace) s 1 refs now in
      let q = enforce_quota ns s.key 0 s.total_size now c in
      elim (Bool-cases (asks_version expected)) [
        | inl y ↦ absurd (cc (rw y at h))
        | inr n ↦ elim (Result-cases q.0) [
          | inr (x, e) ↦ absurd (cc (rw (n, e) at h))
          | inl (d, e) ↦ elim (Result-cases (put_entry entry minus_one q.1.store)) [
            | inr (x, f) ↦ absurd (cc (rw (n, e, f) at h))
            | inl (m, f) ↦
                let grows =
                  bytes_in-stored_free ns.name entry q.1.store (sym name) (checked_key 0 ∙ g) in
                let room =
                  enforce_quota-fits ns s.key 0 s.total_size now c d v limited small (omega arith)
                    fits e in
                rw (n, e, f, ← put_entry-ok entry minus_one q.1.store m f, grows) (omega arith)
          ]
        ]
      ]

  publish_over-room :
      (x : Entry)
      → get_entry (norm_namespace s.namespace) s.key c.store ≡ ok x
      → x.namespace ≡ ns.name
      → x.total_size ≤ bytes_in ns.name c.store
      → (publish_over ns s refs now expected x c).0 ≡ ok r
      → bytes_in ns.name (publish_over ns s refs now expected x c).1.store ≤ ns.max_bytes
  unfolding publish_over entry_of
  publish_over-room x g inside part h =
      let entry = entry_of (norm_namespace s.namespace) s (add64 x.version 1) refs now in
      let q = enforce_quota ns s.key x.total_size s.total_size now c in
      elim (Bool-cases (names_version expected x.version)) [
        | inr n ↦ absurd (cc (rw n at h))
        | inl y ↦ elim (Result-cases q.0) [
          | inr (z, e) ↦ absurd (cc (rw (y, e) at h))
          | inl (d, e) ↦ elim (Result-cases (put_entry entry x.version q.1.store)) [
            | inr (z, f) ↦ absurd (cc (rw (y, e, f) at h))
            | inl (m, f) ↦
                let grows =
                  bytes_in-stored_over ns.name entry x q.1.store (sym name) inside
                    (checked_key x.total_size ∙ g) in
                let room =
                  enforce_quota-fits ns s.key x.total_size s.total_size now c d v limited small part
                    fits e in
                let same = put_entry-ok entry x.version q.1.store m f in
                rw (y, e, f, ← same) (omega arith)
          ]
        ]
      ]

reused_result :
    (e : Entry) (d : Option EvictionDecision) (r : PublishResult)
    → ◌≡◌ {A = Result Error PublishResult}
        (ok (record { entry = e; reused = true; eviction = d }))
        (ok r)
    → r.reused ≡ true
reused_result e d r h = cc

publish_same-reused :
    (x : Entry) (now : Time) (c : Cache) (r : PublishResult)
    → (publish_same x now c).0 ≡ ok r
    → r.reused ≡ true
unfolding publish_same
publish_same-reused x now c r h = elim (Bool-cases (x.last_accessed_at == now)) [
  | inl y ↦ reused_result x none r (rw y at h)
  | inr n ↦
      elim (Result-cases (put_entry (record x { last_accessed_at = now }) x.version c.store)) [
        | inr (z, f) ↦ absurd (cc (rw (n, f) at h))
        | inl (m, f) ↦ reused_result (record x { last_accessed_at = now }) none r (rw (n, f) at h)
      ]
]

-- A publication that succeeds with new content leaves its namespace within the quota, where there is
-- one: what the namespace then holds is at most the limit. The sizes are below 2 ^ 63, the namespace is
-- stored under its name, and an entry under the key lies in the namespace.
pub publish-room :
    (s : Session) (refs : List ChunkRef) (now : Time) (expected : Option ℕ) (c : Cache)
    (r : PublishResult) (ns : Namespace)
    → IsKeyed c.store
    → require_namespace (norm_namespace s.namespace) c.store ≡ ok ns
    → ns.name ≡ norm_namespace s.namespace
    → ((x : Entry)
        → get_entry (norm_namespace s.namespace) s.key c.store ≡ ok x
        → x.namespace ≡ ns.name)
    → 0 < ns.max_bytes
    → ns.max_bytes < two63
    → bytes_in ns.name c.store + s.total_size < two63
    → (publish s refs now expected c).0 ≡ ok r
    → r.reused ≡ false
    → bytes_in ns.name (publish s refs now expected c).1.store ≤ ns.max_bytes
unfolding publish
publish-room s refs now expected c r ns v e name inside limited small fits h new =
    let n = norm_namespace s.namespace in
    elim (Result-cases (get_entry n s.key c.store)) [
      | inr (x, g) ↦
          let free : get_entry n s.key c.store ≡ err entry_not_found =
            g ∙ ap (λ (y : Error). err y) (get_entry-missing n s.key c.store x g) in
          rw (e, free)
            (publish_new-room ns s refs now expected c r v name limited small fits free
              (rw (e, free) at h))
      | inl (x, g) ↦ elim (Bool-cases (equal x.digest s.final_digest)) [
        | inl y ↦ absurd (cc (publish_same-reused x now c r (rw (e, g, y) at h), new))
        | inr q ↦
            let home = inside x g in
            let part =
              bytes_in-part ns.name s.key c.store x
                (subst (λ (i : String). get_entry i s.key c.store ≡ ok x) (sym name) g) home in
            rw (e, g, q)
              (publish_over-room ns s refs now expected c r v name limited small fits x g home part
                (rw (e, g, q) at h))
      ]
    ]
