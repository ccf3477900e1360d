-- ===== src/Cache/Sessions/Completion.antt =====
-- What Complete guarantees of an entry that it publishes.
use go_build_cache.Prelude.{
  ℕ, String, ◌≡◌, refl, sym, ap, ◌∙◌, true, Option, List, [], ◌∷◌, str_eq, Bool-cases, inl, inr,
  sort_by, ◌==◌, ==_iff,
}
use go_build_cache.Prelude.Exec.{Result, ok, Result-cases}
use go_build_cache.Prelude.Maps.{string_eq, nat_eq}
use go_build_cache.Digest.{Digest, equal}
use go_build_cache.Model.{Session, ChunkRef}
use go_build_cache.Errors.{Error}
use go_build_cache.Store.{MemoryStore, Bytes}
use go_build_cache.Store.Entries.{get_entry}
use go_build_cache.Store.Sessions.{get_session, delete_session}
use go_build_cache.Store.Invariant.{IsKeyed}
use go_build_cache.Cache.{Cache, next_reading, tick, norm_namespace}
use go_build_cache.Cache.Sessions.Chunks.{index_before}
use go_build_cache.Cache.Sessions.Upload.{ensure_open, hash_bytes, forget_key}
use go_build_cache.Cache.Sessions.Publish.{
  PublishResult, missing, is_nil, gather, content, compute_final_digest, publish, complete,
}
use go_build_cache.Cache.Sessions.Publication.{Follows, equal-same, publish_lem}

is_nil-empty : (xs : List ℕ) → is_nil xs ≡ true → xs ≡ []
is_nil-empty [] h = refl
is_nil-empty (x ∷ xs) h = absurd (cc h)

hex_of :
    (sha256 : Bytes → String) (algo : String) (bytes : Bytes) (d : Digest)
    → ◌≡◌ {A = Result Error Digest} (ok (record { algo = algo; hex = sha256 bytes })) (ok d)
    → d.hex ≡ sha256 bytes
hex_of sha256 algo bytes d h = cc

hash_bytes-sha256 :
    (sha256 : Bytes → String) (algo : String) (bytes : Bytes)
    → str_eq algo "sha256" ≡ true
    → hash_bytes sha256 algo bytes ≡ ok (record { algo = algo; hex = sha256 bytes })
unfolding hash_bytes
hash_bytes-sha256 sha256 algo bytes y = rw y refl

-- The final digest is the hash of the content of the chunks.
compute_final_digest_parts :
    (sha256 : Bytes → String) (s : Session) (m : MemoryStore) (d : Digest)
    → compute_final_digest sha256 s m ≡ ok d
    → (bytes : Bytes) × (content (sort_by index_before s.chunks) s.received m ≡ ok bytes)
      × (d.hex ≡ sha256 bytes)
unfolding compute_final_digest
compute_final_digest_parts sha256 s m d h =
    elim (Bool-cases (str_eq s.final_digest.algo "sha256")) [
      | inr n ↦ absurd (cc (rw (compute_final_digest, n) at h))
      | inl y ↦ elim (Result-cases (content (sort_by index_before s.chunks) s.received m)) [
        | inr (x, e) ↦ absurd (cc (rw (compute_final_digest, y, e) at h))
        | inl (bytes, e) ↦ (
          bytes,
          e,
          hex_of sha256 s.final_digest.algo bytes d (
              sym (hash_bytes-sha256 sha256 s.final_digest.algo bytes y)
              ∙ (rw (compute_final_digest, y, e) at h)),
        )
      ]
    ]

-- The state after the session has been removed.
abbrev closed : Session → Cache → Cache
closed s c = forget_key s (record c { store = delete_session s.id c.store })

closed-entries : (s : Session) (c : Cache) → (closed s c).store.entries ≡ c.store.entries
unfolding delete_session
closed-entries s c = elim (Bool-cases (str_eq s.idempotency_key "")) [
  | inl y ↦ rw y refl
  | inr n ↦ rw n refl
]

closed-get_entry :
    (s : Session) (ns key : String) (c : Cache)
    → get_entry ns key (closed s c).store ≡ get_entry ns key c.store
unfolding get_entry
closed-get_entry s ns key c = rw (closed-entries s c) refl

module _ (sha256 : Bytes → String) (id : String) (expected : Option ℕ) (c : Cache)
    (r : PublishResult) (s : Session) (g : get_session id c.store ≡ ok s) where
  -- What has been checked before the publication, and the publication.
  record Checked : Type 0 where
    all_there : missing s.chunks s.received ≡ []
    sum : ℕ
    refs : List ChunkRef
    gathered : gather s.chunks s.received 0 ≡ ok (sum, refs)
    full_size : sum ≡ s.total_size
    final : Digest
    computed : compute_final_digest sha256 s c.store ≡ ok final
    matches : final ≡ s.final_digest
    published : (publish s refs (next_reading c) expected (tick c)).0 ≡ ok r
    after :
        (complete sha256 id expected c).1
        ≡ closed s (publish s refs (next_reading c) expected (tick c)).1

  complete-Checked : (complete sha256 id expected c).0 ≡ ok r → Checked
  unfolding complete
  complete-Checked h = elim (Result-cases (ensure_open s (next_reading c))) [
    | inr (x, e1) ↦ absurd (cc (rw (g, e1) at h))
    | inl (u, e1) ↦ elim (Bool-cases (is_nil (missing s.chunks s.received))) [
      | inr e2 ↦ absurd (cc (rw (g, e1, e2) at h))
      | inl e2 ↦ elim (Result-cases (gather s.chunks s.received 0)) [
        | inr (x, e3) ↦ absurd (cc (rw (g, e1, e2, e3) at h))
        | inl (sum_refs, e3) ↦ elim (Bool-cases (sum_refs.0 == s.total_size)) [
          | inr e4 ↦ absurd (cc (rw (g, e1, e2, e3, e4) at h))
          | inl e4 ↦ elim (Result-cases (compute_final_digest sha256 s c.store)) [
            | inr (x, e5) ↦ absurd (cc (rw (g, e1, e2, e3, e4, e5) at h))
            | inl (final, e5) ↦ elim (Bool-cases (equal final s.final_digest)) [
              | inr e6 ↦ absurd (cc (rw (g, e1, e2, e3, e4, e5, e6) at h))
              | inl e6 ↦
                  elim (Result-cases (publish s sum_refs.1 (next_reading c) expected (tick c)).0) [
                    | inr (x, e7) ↦ absurd (cc (rw (g, e1, e2, e3, e4, e5, e6, e7) at h))
                    | inl (res, e7) ↦ record {
                      all_there = is_nil-empty (missing s.chunks s.received) e2;
                      sum = sum_refs.0;
                      refs = sum_refs.1;
                      gathered = e3;
                      full_size = (==_iff sum_refs.0 s.total_size).0 e4;
                      final = final;
                      computed = e5;
                      matches = equal-same final s.final_digest e6;
                      published = e7 ∙ (rw (g, e1, e2, e3, e4, e5, e6, e7) at h);
                      after = rw (g, e1, e2, e3, e4, e5, e6, e7) refl;
                    }
                  ]
            ]
          ]
        ]
      ]
    ]
  ]

-- Complete publishes nothing but what was announced. When it succeeds, every declared chunk has come,
-- the digest of the entry is the hash of the chunks' stored content in the order of their numbers, and
-- readers of the key find the entry that is returned; its version is the first on a free key, the same
-- over the same content, and one more than the version that the caller has named over other content.
pub complete_lem :
    (sha256 : Bytes → String) (id : String) (expected : Option ℕ) (c : Cache) (r : PublishResult)
    (s : Session)
    → IsKeyed c.store
    → get_session id c.store ≡ ok s
    → (complete sha256 id expected c).0 ≡ ok r
    → (get_entry (norm_namespace s.namespace) s.key (complete sha256 id expected c).1.store
        ≡ ok r.entry)
      × Follows s.final_digest expected
          (get_entry (norm_namespace s.namespace) s.key c.store)
          r.entry.version
      × (missing s.chunks s.received ≡ [])
      × (r.entry.digest ≡ s.final_digest)
      × (bytes : Bytes) × (content (sort_by index_before s.chunks) s.received c.store ≡ ok bytes)
      × (r.entry.digest.hex ≡ sha256 bytes)
complete_lem sha256 id expected c r s v g h =
    let k = complete-Checked sha256 id expected c r s g h in
    let n = norm_namespace s.namespace in
    let (found, digest, follows) =
      publish_lem s k.refs (next_reading c) expected (tick c) r v k.published in
    let (bytes, stored, hashed) = compute_final_digest_parts sha256 s c.store k.final k.computed in
    (
      rw k.after (
          closed-get_entry s n s.key (publish s k.refs (next_reading c) expected (tick c)).1
          ∙ found),
      follows,
      k.all_there,
      digest,
      bytes,
      stored,
      ap (λ (d : Digest). d.hex) digest ∙ sym (ap (λ (d : Digest). d.hex) k.matches) ∙ hashed,
    )
