-- ===== src/Cache/Collection/Precise.antt =====
-- CollectGarbage as a whole.
use go_build_cache.Prelude.{
  ℕ, String, ◌≡◌, refl, subst, ◌∙◌, Bool, true, false, not, ◌&&◌, Option, none, some, List, [], ◌∷◌,
  if◌then◌else◌, arith, Bool-cases, Option-cases, inl, inr, In-sort_by,
}
use go_build_cache.Prelude.Exec.{ok, err, Result-cases}
use go_build_cache.Prelude.Int64.{add64}
use go_build_cache.Prelude.Maps.{get, values, string_eq, In-values}
use go_build_cache.Digest.{Digest, to_string}
use go_build_cache.Model.{Time, Session, Pin, active}
use go_build_cache.Errors.{Error, blob_not_found}
use go_build_cache.Store.{MemoryStore, BlobInfo, Bytes, or_fail}
use go_build_cache.Store.Audit.{append_audit}
use go_build_cache.Store.Blobs.{get_blob, list_blobs}
use go_build_cache.Store.Invariant.{IsKeyed, pin_key}
use go_build_cache.Store.Sessions.{delete_session, list_sessions}
use go_build_cache.Store.Pins.{save_pin, list_pins}
use go_build_cache.Cache.{Cache, next_reading}
use go_build_cache.Cache.Pins.Moves.Sweep.{listed_pin}
use go_build_cache.Cache.Pins.Sweep.{sweep_pins, is_overdue, expire, sweep_record}
use go_build_cache.Cache.Sessions.Sweep.{
  SweptSession, sweep_reason, sweep_sessions, sweep_session_locked,
}
use go_build_cache.Cache.Collection.Mark.{build_live_set}
use go_build_cache.Cache.Collection.Collect.{
  GcReport, begin_collection, collect_blobs, sweep_blobs, collect_garbage,
}
use go_build_cache.Cache.Collection.Live.{in_use, named, get-build_live_set}
use go_build_cache.Cache.Collection.Removal.{listed, get-collect_blobs, listed-list_blobs}
use go_build_cache.Cache.Collection.Harmless.{
  Overdue, Listed, in_use-sweep_pins, in_use-sweep_sessions, is_overdue-inactive,
}

-- The sweep of sessions leaves the pins and the blobs alone.
sweep_sessions-rest :
    (now : Time) (gen : ℕ) (ss : List Session) (c : Cache)
    → ((sweep_sessions now gen ss c).1.store.pins ≡ c.store.pins)
      × ((sweep_sessions now gen ss c).1.store.blobs ≡ c.store.blobs)
unfolding sweep_sessions sweep_session_locked append_audit delete_session
sweep_sessions-rest now gen [] c = (refl, refl)
sweep_sessions-rest now gen (s ∷ ss) c = elim (Option-cases (sweep_reason now s s.status)) [
  | inl e ↦ rw (sweep_sessions, e) (sweep_sessions-rest now gen ss c)
  | inr (reason, e) ↦
      rw (sweep_sessions, e) (sweep_sessions-rest now gen ss (sweep_session_locked s reason gen c))
]

sweep_pins-blobs :
    (now : Time) (gen : ℕ) (ps : List Pin) (m : MemoryStore)
    → (sweep_pins now gen ps m).1.blobs ≡ m.blobs
unfolding sweep_pins append_audit save_pin
sweep_pins-blobs now gen [] m = refl
sweep_pins-blobs now gen (p ∷ ps) m = elim (Bool-cases (is_overdue now p)) [
  | inl o ↦ rw o (
      sweep_pins-blobs now gen ps
        (append_audit (sweep_record now gen (expire now p)) (save_pin (expire now p) m)))
  | inr n ↦ rw n (sweep_pins-blobs now gen ps m)
]

some_same : (p w : Pin) (o : Option Pin) → o ≡ some p → o ≡ some w → p ≡ w
some_same p w o h g = cc

same_session : (s w : Session) (o : Option Session) → o ≡ some s → o ≡ some w → w ≡ s
same_session s w o h g = cc

list_pins-Overdue : (now : Time) (m : MemoryStore) → IsKeyed m → Overdue now (list_pins m) m.pins
list_pins-Overdue now m v p w i o g =
    let same = some_same p w (get (pin_key p) m.pins) (listed_pin m p v i) g in
    subst (λ (x : Pin). active x now ≡ false) same (is_overdue-inactive now p o)

list_sessions-Listed : (m : MemoryStore) → IsKeyed m → Listed (list_sessions m) m.sessions
unfolding list_sessions
list_sessions-Listed m v s w i g =
    let (k, h) = In-values s m.sessions v.unique_sessions (In-sort_by _ s (values m.sessions) i) in
    same_session s w (get s.id m.sessions)
      (subst (λ (j : String). get j m.sessions ≡ some s) (v.sessions_at k s h) h) g

-- The state in which the mark is made: the sweeps have run.
abbrev pub swept_sessions : Cache → List SweptSession × Cache
swept_sessions c =
    sweep_sessions (next_reading c) (add64 c.gc_gen 1) (list_sessions c.store) (begin_collection c)

abbrev pub swept_pins : Cache → List Pin × MemoryStore
swept_pins c =
    let m = (swept_sessions c).1.store in
    sweep_pins (next_reading c) (add64 c.gc_gen 1) (list_pins m) m

abbrev pub swept : Cache → Cache
swept c = record (swept_sessions c).1 { store = (swept_pins c).1 }

pins-Overdue :
    (now : Time) (m n : MemoryStore)
    → IsKeyed m
    → n.pins ≡ m.pins
    → Overdue now (list_pins n) n.pins
unfolding list_pins
pins-Overdue now m n v e = rw e (list_pins-Overdue now m v)

in_use-swept :
    (c : Cache) (q : Digest → Bool)
    → IsKeyed c.store
    → in_use (next_reading c) (swept c).store q ≡ in_use (next_reading c) c.store q
unfolding begin_collection append_audit
in_use-swept c q v =
    let start = next_reading c in
    let gen = add64 c.gc_gen 1 in
    let ss = list_sessions c.store in
    let m = (swept_sessions c).1.store in
    in_use-sweep_pins start gen q (list_pins m) m
      (pins-Overdue start c.store m v (sweep_sessions-rest start gen ss (begin_collection c)).0)
    ∙ in_use-sweep_sessions start gen q ss (begin_collection c) v.unique_sessions
        (list_sessions-Listed c.store v)

pub blobs-swept : (c : Cache) → (swept c).store.blobs ≡ c.store.blobs
unfolding begin_collection append_audit
blobs-swept c =
    let start = next_reading c in
    let gen = add64 c.gc_gen 1 in
    let m = (swept_sessions c).1.store in
    sweep_pins-blobs start gen (list_pins m) m
    ∙ (sweep_sessions-rest start gen (list_sessions c.store) (begin_collection c)).1

pub collect_garbage-swept :
    (c : Cache)
    → collect_garbage c
      ≡ sweep_blobs
          (next_reading c)
          (add64 c.gc_gen 1)
          (swept_sessions c).0
          (swept_pins c).0
          (list_blobs (swept c).store)
          (swept c)
unfolding collect_garbage begin_collection append_audit list_sessions
collect_garbage-swept c = refl

sweep_blobs-blobs :
    (start : Time) (gen : ℕ) (sessions : List SweptSession) (pins : List Pin) (c : Cache)
    (bs : List BlobInfo)
    → (sweep_blobs start gen sessions pins (ok bs) c).1.store.blobs
      ≡ (collect_blobs start gen (build_live_set start c.store) bs c).1.store.blobs
unfolding sweep_blobs append_audit
sweep_blobs-blobs start gen sessions pins c bs = refl

sweep_blobs-err :
    (start : Time) (gen : ℕ) (sessions : List SweptSession) (pins : List Pin) (x : Error)
    (c : Cache)
    → (sweep_blobs start gen sessions pins (err x) c).0 ≡ err x
unfolding sweep_blobs
sweep_blobs-err start gen sessions pins x c = refl

-- A step of the last argument: what is not stored stays so, and what is stored was listed.
removal_lem :
    (l u : Bool) (x : Option Bytes)
    → ((v : Bytes) → x ≡ some v → l ≡ true)
    → (if l && not u then none else x) ≡ (if u then x else none)
removal_lem l u none h = ground arith
removal_lem l u (some v) h = rw (h v refl) (ground arith)

get-swept_blobs :
    (c : Cache) (k : String) (bs : List BlobInfo)
    → IsKeyed c.store
    → list_blobs (swept c).store ≡ ok bs
    → get k
        (collect_blobs
          (next_reading c)
          (add64 c.gc_gen 1)
          (build_live_set (next_reading c) (swept c).store)
          bs
          (swept c)).1.store.blobs
      ≡ (if in_use (next_reading c) c.store (named k) then get k c.store.blobs else none)
get-swept_blobs c k bs v l =
    let start = next_reading c in
    let removed =
      get-collect_blobs start (add64 c.gc_gen 1) (build_live_set start (swept c).store) k bs
        (swept c) (λ j. get-build_live_set j start (swept c).store) in
    removed
    ∙ removal_lem (listed k bs) (in_use start (swept c).store (named k))
        (get k (swept c).store.blobs) (λ w g. listed-list_blobs k w (swept c).store bs l g)
    ∙ rw (in_use-swept c (named k) v, blobs-swept c) refl

found_blob :
    (u : Bool) (x y : Option Bytes)
    → y ≡ (if u then x else none)
    → or_fail y blob_not_found ≡ (if u then or_fail x blob_not_found else err blob_not_found)
found_blob true x y h = rw h refl
found_blob false x y h = rw h refl

-- After a garbage collection that succeeds, a blob is there exactly when it was there and something
-- referred to it when the collection began: a published entry, an open session with a running lease,
-- an active pin lease, or a prepared promotion.
pub collect_garbage-precise :
    (c : Cache) (report : GcReport) (d : Digest)
    → IsKeyed c.store
    → (collect_garbage c).0 ≡ ok report
    → get_blob d (collect_garbage c).1.store ≡ (
        if in_use (next_reading c) c.store (named (to_string d))
        then get_blob d c.store
        else err blob_not_found)
unfolding get_blob
collect_garbage-precise c report d v h =
    let start = next_reading c in
    let gen = add64 c.gc_gen 1 in
    elim (Result-cases (list_blobs (swept c).store)) [
      | inl (bs, l) ↦
          rw
            (
              collect_garbage-swept c,
              l,
              sweep_blobs-blobs start gen (swept_sessions c).0 (swept_pins c).0 (swept c) bs,
            )
            (found_blob (in_use start c.store (named (to_string d)))
              (get (to_string d) c.store.blobs) _ (get-swept_blobs c (to_string d) bs v l))
      | inr (x, l) ↦
          let e : (collect_garbage c).0 ≡ err x =
            rw
              (
                collect_garbage-swept c,
                l,
                sweep_blobs-err start gen (swept_sessions c).0 (swept_pins c).0 x (swept c),
              )
              refl in
          absurd (cc (e, h))
    ]
