-- ===== src/Cache/Sessions/Reading.antt =====
-- Reads: what they change, and why an eviction that was planned before a read spares the entry.
use go_build_cache.Prelude.{
  ◌<◌, ◌≤◌, String, ◌≡◌, refl, sym, ◌∙◌, true, false, arith, eq_iff, if◌then◌else◌, Bool-cases, In,
  inl, inr, ltb,
}
use go_build_cache.Prelude.Exec.{Result, ok}
use go_build_cache.Prelude.Int64.{lt64, two63, lt64_nonneg}
use go_build_cache.Prelude.Maps.{string_eq}
use go_build_cache.Model.{Time, Entry, EvictionCandidate, EvictionDecision}
use go_build_cache.Errors.{Error}
use go_build_cache.Store.{MemoryStore, entry_map_key}
use go_build_cache.Store.Decisions.{get_decision}
use go_build_cache.Store.Entries.{get_entry}
use go_build_cache.Store.Entries.Swap.{stored, put_entry-stored, get_entry-stored, Matches}
use go_build_cache.Store.Invariant.{IsKeyed}
use go_build_cache.Cache.{Cache, next_reading, tick, norm_namespace}
use go_build_cache.Cache.Eviction.Commit.{commit_eviction}
use go_build_cache.Cache.Eviction.Deletions.{Untouched, spared, evicted, found_at}
use go_build_cache.Cache.Eviction.Twice.{commit_eviction-Left}
use go_build_cache.Cache.Sessions.Publish.{touch, read}

-- The entry with its time of access moved forward.
abbrev pub accessed_by : Time → Entry → Entry
accessed_by now e = if ltb e.last_accessed_at now then record e { last_accessed_at = now } else e

pub stored_entry :
    (m : MemoryStore) (ns key : String) (e : Entry)
    → IsKeyed m
    → get_entry ns key m ≡ ok e
    → entry_map_key ns key ≡ entry_map_key e.namespace e.key
unfolding get_entry
stored_entry m ns key e v h = v.entries_at (entry_map_key ns key) e (ground (arith, h))

at_home :
    (m : MemoryStore) (ns key : String) (e : Entry)
    → entry_map_key ns key ≡ entry_map_key e.namespace e.key
    → get_entry ns key m ≡ ok e
    → get_entry e.namespace e.key m ≡ ok e
unfolding get_entry
at_home m ns key e k h = rw (← k) h

-- The write of the moved time goes through, as the version is the one that is there.
touch-moved :
    (e : Entry) (now : Time) (c : Cache)
    → e.version < two63
    → get_entry e.namespace e.key c.store ≡ ok e
    → ltb e.last_accessed_at now ≡ true
    → touch e now c ≡ (
      ok (record e { last_accessed_at = now }),
      record c { store = stored (record e { last_accessed_at = now }) c.store },
    )
unfolding touch
touch-moved e now c small h y =
    let positive : lt64 e.version 0 ≡ false =
      lt64_nonneg e.version 0 small (omega arith) ∙ ground arith in
    let matches : Matches e.version (get_entry e.namespace e.key c.store) = rw h (positive, refl) in
    rw (y, put_entry-stored (record e { last_accessed_at = now }) e.version c.store matches) refl

touch-still :
    (e : Entry) (now : Time) (c : Cache)
    → ltb e.last_accessed_at now ≡ false
    → touch e now c ≡ (ok e, c)
unfolding touch
touch-still e now c n = rw n refl

touch_lem :
    (ns key : String) (e : Entry) (now : Time) (c : Cache)
    → IsKeyed c.store
    → e.version < two63
    → get_entry ns key c.store ≡ ok e
    → ((touch e now c).0 ≡ ok (accessed_by now e))
      × (get_entry ns key (touch e now c).1.store ≡ ok (accessed_by now e))
touch_lem ns key e now c v small h =
    let k = stored_entry c.store ns key e v h in
    elim (Bool-cases (ltb e.last_accessed_at now)) [
      | inl y ↦
          let there = entry_map_key e.namespace e.key in
          rw (touch-moved e now c small (at_home c.store ns key e k h) y, y)
            (
              refl,
              get_entry-stored (record e { last_accessed_at = now }) ns key c.store
                  ∙ rw (k, (eq_iff there there).1 refl) refl,
            )
      | inr n ↦ rw (touch-still e now c n, n) (refl, h)
    ]

read-touch :
    (ns key : String) (e : Entry) (c : Cache)
    → get_entry (norm_namespace ns) key c.store ≡ ok e
    → read ns key c ≡ touch e (next_reading c) (tick c)
unfolding read
read-touch ns key e c h = rw h refl

-- A read of an entry returns it with its time of access moved forward to the clock's reading, never
-- back, and that is what is then stored; a version is below 2 ^ 63.
pub read_lem :
    (ns key : String) (e : Entry) (c : Cache)
    → IsKeyed c.store
    → e.version < two63
    → get_entry (norm_namespace ns) key c.store ≡ ok e
    → ((read ns key c).0 ≡ ok (accessed_by (next_reading c) e))
      × (get_entry (norm_namespace ns) key (read ns key c).1.store
          ≡ ok (accessed_by (next_reading c) e))
read_lem ns key e c v small h =
    rw (read-touch ns key e c h)
      (touch_lem (norm_namespace ns) key e (next_reading c) (tick c) v small h)

accessed_by-late : (now : Time) (e : Entry) → now ≤ (accessed_by now e).last_accessed_at
accessed_by-late now e = elim (Bool-cases (ltb e.last_accessed_at now)) [
  | inl y ↦ rw y (omega arith)
  | inr n ↦ rw n (ground arith)
]

found_at-get_entry :
    (ns key : String) (m : MemoryStore) → found_at (entry_map_key ns key) m ≡ get_entry ns key m
unfolding get_entry
found_at-get_entry ns key m = refl

not-Untouched :
    (now : Time) (e x : Entry) (cand : EvictionCandidate) (r : Result Error Entry)
    → now ≤ e.last_accessed_at
    → cand.last_accessed_at < now
    → r ≡ ok e
    → r ≡ ok x
    → Untouched cand x
    → ⊥
not-Untouched now e x cand r l s f g u =
    let same : e ≡ x = cc in
    let before : x.last_accessed_at ≤ cand.last_accessed_at = u.not_accessed in
    let after : e.last_accessed_at ≤ cand.last_accessed_at = rw same before in omega arith

-- A read makes an eviction that was planned before it spare the entry: where the clock has passed the
-- times that the decision's candidates were last accessed at, committing the decision after the read
-- leaves the entry as the read left it.
pub read-spares :
    (ns key id : String) (e : Entry) (d : EvictionDecision) (c : Cache)
    → IsKeyed c.store
    → e.version < two63
    → get_entry (norm_namespace ns) key c.store ≡ ok e
    → get_decision id (read ns key c).1.store ≡ ok d
    → ((cand : EvictionCandidate) → In cand d.candidates → cand.last_accessed_at < next_reading c)
    → get_entry (norm_namespace ns) key (commit_eviction id (read ns key c).1).1.store
      ≡ ok (accessed_by (next_reading c) e)
read-spares ns key id e d c v small h g older =
    let n = norm_namespace ns in
    let c1 = (read ns key c).1 in
    let stays = (read_lem ns key e c v small h).1 in
    elim (commit_eviction-Left id d c1 (entry_map_key n key) g) [
      | spared q ↦
          sym (found_at-get_entry n key (commit_eviction id c1).1.store)
          ∙ q
          ∙ found_at-get_entry n key c1.store
          ∙ stays
      | evicted cand x i k o u p gone ↦ absurd (
          (not-Untouched (next_reading c) (accessed_by (next_reading c) e) x cand
            (found_at (entry_map_key n key) c1.store) (accessed_by-late (next_reading c) e)
            (older cand i) (found_at-get_entry n key c1.store ∙ stays) o u))
    ]
