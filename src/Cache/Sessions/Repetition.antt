-- ===== src/Cache/Sessions/Repetition.antt =====
-- Chunks that are uploaded again.
use go_build_cache.Prelude.{
  ℕ, ◌<◌, String, ◌≡◌, refl, sym, ap, subst, ◌∙◌, true, false, Option, none, some, arith, eq_iff,
  Bool-cases, Option-cases, inl, inr, ◌==◌, ==_iff, length,
}
use go_build_cache.Prelude.Exec.{Result, ok, Result-cases}
use go_build_cache.Prelude.Maps.{get, put, get-put, string_eq, nat_eq}
use go_build_cache.Digest.{Digest, equal}
use go_build_cache.Model.{Time, ChunkSpec, ChunkReceipt, Session, session_open}
use go_build_cache.Errors.{Error}
use go_build_cache.Store.{MemoryStore, Bytes}
use go_build_cache.Store.Blobs.{put_blob}
use go_build_cache.Store.Sessions.{get_session, save_session}
use go_build_cache.Store.Invariant.{IsKeyed}
use go_build_cache.Cache.{Cache, next_reading, tick}
use go_build_cache.Cache.Sessions.Sweep.{expired}
use go_build_cache.Cache.Sessions.Chunks.{chunk_spec_by_index}
use go_build_cache.Cache.Sessions.Upload.{hash_bytes, ensure_open, declared, receive, upload_chunk}

equal_refl : (d : Digest) → equal d d ≡ true
unfolding equal
equal_refl d = ground (arith, eq_iff d.algo d.algo, eq_iff d.hex d.hex)

declared_any :
    (id : String) (index : ℕ) (o : Option ChunkSpec) (spec : ChunkSpec)
    → declared id index o ≡ ok spec
    → (other : String) → declared other index o ≡ ok spec
declared_any id index none spec h other = absurd (cc h)
declared_any id index (some x) spec h other = h

session_id :
    (m : MemoryStore) (id : String) (s : Session) → IsKeyed m → get_session id m ≡ ok s → s.id ≡ id
unfolding get_session
session_id m id s v g = sym (v.sessions_at id s (ground (arith, g)))

-- What is known of a session and a chunk when an upload has passed its checks.
record Accepts (sha256 : Bytes → String) (index : ℕ) (bytes : Bytes) (s : Session)
    (spec : ChunkSpec) (got : Digest) : Type 0 where
  spec_of : (id : String) → declared id index (chunk_spec_by_index s.chunks index) ≡ ok spec
  full : length bytes == spec.size ≡ true
  hashed : hash_bytes sha256 spec.digest.algo bytes ≡ ok got

-- A chunk that has been received is answered with its receipt.
upload_chunk-known :
    (sha256 : Bytes → String) (id : String) (index : ℕ) (bytes : Bytes) (c : Cache) (s : Session)
    (spec : ChunkSpec) (got : Digest) (rec : ChunkReceipt)
    → get_session id c.store ≡ ok s
    → ensure_open s (next_reading c) ≡ ok tt
    → Accepts sha256 index bytes s spec got
    → get index s.received ≡ some rec
    → equal rec.digest got ≡ true
    → upload_chunk sha256 id index bytes c ≡ (ok rec, tick c)
unfolding upload_chunk
upload_chunk-known sha256 id index bytes c s spec got rec g o a r q =
    rw (g, o, a.spec_of id, a.full, a.hashed, r, q) refl

-- An upload that has succeeded: the session that is then stored knows the chunk.
record Known (sha256 : Bytes → String) (id : String) (index : ℕ) (bytes : Bytes)
    (rec : ChunkReceipt) (s : Session) (c1 : Cache) : Type 0 where
  later : Session
  there : get_session id c1.store ≡ ok later
  same_status : later.status ≡ s.status
  same_lease : later.expires_at ≡ s.expires_at
  spec : ChunkSpec
  got : Digest
  accepts : Accepts sha256 index bytes later spec got
  known : get index later.received ≡ some rec
  matches : equal rec.digest got ≡ true

saved_session :
    (s : Session) (id : String) (m : MemoryStore)
    → s.id ≡ id
    → get_session id (save_session s m) ≡ ok s
unfolding get_session save_session
saved_session s id m same =
    subst (λ (i : String). get_session i (save_session s m) ≡ ok s) same
      (rw (get-put s.id s.id s m.sessions, (eq_iff s.id s.id).1 refl) refl)

same_receipt : (a b : ChunkReceipt) → ◌≡◌ {A = Result Error ChunkReceipt} (ok a) (ok b) → a ≡ b
same_receipt a b h = cc

receive-Known :
    (sha256 : Bytes → String) (id : String) (index : ℕ) (bytes : Bytes) (c : Cache) (s : Session)
    (spec : ChunkSpec) (got : Digest) (now : Time) (rec : ChunkReceipt)
    → s.id ≡ id
    → Accepts sha256 index bytes s spec got
    → (receive s spec index bytes got now c).0 ≡ ok rec
    → Known sha256 id index bytes rec s (receive s spec index bytes got now c).1
unfolding receive
receive-Known sha256 id index bytes c s spec got now rec same a h =
    elim (Bool-cases (equal got spec.digest)) [
      | inr n ↦ absurd (cc (rw n at h))
      | inl y ↦ elim (Result-cases (put_blob got bytes c.store)) [
        | inr (x, f) ↦ absurd (cc (rw (y, f) at h))
        | inl (m, f) ↦
            let fresh : ChunkReceipt = record {
              index = index;
              digest = got;
              size = length bytes;
              received_at = now;
            } in
            let later : Session = record s { received = put index fresh s.received } in
            let eq = same_receipt fresh rec (rw (y, f) at h) in
            rw (y, f)
              (record {
                later = later;
                there = saved_session later id m same;
                same_status = refl;
                same_lease = refl;
                spec = spec;
                got = got;
                accepts = record { spec_of = a.spec_of; full = a.full; hashed = a.hashed };
                known =
                    get-put index index fresh s.received
                    ∙ rw ((==_iff index index).1 refl) (ap (λ (r : ChunkReceipt). some r) eq);
                matches =
                    subst (λ (r : ChunkReceipt). equal r.digest got ≡ true) eq (equal_refl got);
              })
      ]
    ]

upload_chunk-Known :
    (sha256 : Bytes → String) (id : String) (index : ℕ) (bytes : Bytes) (c : Cache) (s : Session)
    (rec : ChunkReceipt)
    → s.id ≡ id
    → get_session id c.store ≡ ok s
    → (upload_chunk sha256 id index bytes c).0 ≡ ok rec
    → Known sha256 id index bytes rec s (upload_chunk sha256 id index bytes c).1
unfolding upload_chunk
upload_chunk-Known sha256 id index bytes c s rec same g h =
    elim (Result-cases (ensure_open s (next_reading c))) [
      | inr (x, e1) ↦ absurd (cc (rw (g, e1) at h))
      | inl (u, e1) ↦ elim (Result-cases (declared id index (chunk_spec_by_index s.chunks index))) [
        | inr (x, e2) ↦ absurd (cc (rw (g, e1, e2) at h))
        | inl (spec, e2) ↦ elim (Bool-cases (length bytes == spec.size)) [
          | inr e3 ↦ absurd (cc (rw (g, e1, e2, e3) at h))
          | inl e3 ↦ elim (Result-cases (hash_bytes sha256 spec.digest.algo bytes)) [
            | inr (x, e4) ↦ absurd (cc (rw (g, e1, e2, e3, e4) at h))
            | inl (got, e4) ↦
                let a : Accepts sha256 index bytes s spec got = record {
                  spec_of = declared_any id index (chunk_spec_by_index s.chunks index) spec e2;
                  full = e3;
                  hashed = e4;
                } in
                elim (Option-cases (get index s.received)) [
                  | inl e5 ↦
                      rw (g, e1, e2, e3, e4, e5)
                        (receive-Known sha256 id index bytes (tick c) s spec got (next_reading c)
                          rec same a (rw (g, e1, e2, e3, e4, e5) at h))
                  | inr (old, e5) ↦ elim (Bool-cases (equal old.digest got)) [
                    | inr e6 ↦ absurd (cc (rw (g, e1, e2, e3, e4, e5, e6) at h))
                    | inl e6 ↦
                        let eq = same_receipt old rec (rw (g, e1, e2, e3, e4, e5, e6) at h) in
                        rw (g, e1, e2, e3, e4, e5)
                          (record {
                            later = s;
                            there = g;
                            same_status = refl;
                            same_lease = refl;
                            spec = spec;
                            got = got;
                            accepts = a;
                            known = e5 ∙ ap (λ (r : ChunkReceipt). some r) eq;
                            matches = subst (λ (r : ChunkReceipt). equal r.digest got ≡ true) eq e6;
                          })
                  ]
                ]
          ]
        ]
      ]
    ]

ensure_open-lease :
    (s : Session) (now : Time)
    → s.status ≡ session_open
    → now < s.expires_at
    → ensure_open s now ≡ ok tt
unfolding ensure_open
ensure_open-lease s now o h = let runs : expired s now ≡ false = ground arith in rw (o, runs) refl

-- An upload that has succeeded can be repeated with the same content for as long as the lease runs: it
-- returns the same receipt, and changes nothing but the clock.
pub upload_chunk-again :
    (sha256 : Bytes → String) (id : String) (index : ℕ) (bytes : Bytes) (c : Cache) (s : Session)
    (rec : ChunkReceipt)
    → IsKeyed c.store
    → get_session id c.store ≡ ok s
    → s.status ≡ session_open
    → (upload_chunk sha256 id index bytes c).0 ≡ ok rec
    → next_reading (upload_chunk sha256 id index bytes c).1 < s.expires_at
    → upload_chunk sha256 id index bytes (upload_chunk sha256 id index bytes c).1
      ≡ (ok rec, tick (upload_chunk sha256 id index bytes c).1)
upload_chunk-again sha256 id index bytes c s rec v g o h l =
    let c1 = (upload_chunk sha256 id index bytes c).1 in
    let k = upload_chunk-Known sha256 id index bytes c s rec (session_id c.store id s v g) g h in
    upload_chunk-known sha256 id index bytes c1 k.later k.spec k.got rec k.there
      (ensure_open-lease k.later (next_reading c1) (k.same_status ∙ o) (rw k.same_lease l))
      k.accepts k.known k.matches
