-- ===== src/Cache/Promotions/Protection.antt =====
-- A prepared promotion and the garbage collection: the frozen content stays.
use go_build_cache.Prelude.{
  String, ◌≡◌, refl, ◌∙◌, Bool, true, Option, some, List, [], ◌∷◌, any, arith, str_eq, eq_iff,
  Bool-cases, Option-cases, inl, inr, In,
}
use go_build_cache.Prelude.Exec.{ok}
use go_build_cache.Prelude.Maps.{Map, get, values, string_eq}
use go_build_cache.Digest.{to_string}
use go_build_cache.Model.{ChunkRef, Promotion, promotion_prepared}
use go_build_cache.Store.Blobs.{get_blob}
use go_build_cache.Store.Invariant.{IsKeyed}
use go_build_cache.Store.Promotions.{get_promotion}
use go_build_cache.Cache.{Cache, next_reading}
use go_build_cache.Cache.Collection.Collect.{GcReport, collect_garbage}
use go_build_cache.Cache.Collection.Mark.{chunk_digests, promotion_digests}
use go_build_cache.Cache.Collection.Live.{in_use, named}
use go_build_cache.Cache.Collection.Precise.{collect_garbage-precise}

-- What a test finds in one value, it finds among all.
some-value : {V : Type 0} (x y : V) → ◌≡◌ {A = Option V} (some x) (some y) → x ≡ y
some-value x y h = cc

any-values :
    {V : Type 0} (f : V → Bool) (k : String) (v : V) (m : Map String V)
    → get k m ≡ some v
    → f v ≡ true
    → any f (values m) ≡ true
unfolding get values
any-values f k v [] g t = absurd (cc g)
any-values f k v ((j, w) ∷ m) g t = elim (Bool-cases (str_eq j k)) [
  | inl y ↦ rw (some-value w v (rw y at g), t) refl
  | inr n ↦ rw (any-values f k v m (rw n at g) t) (ground arith)
]

named-chunk :
    (ref : ChunkRef) (refs : List ChunkRef)
    → In ref refs
    → any (named (to_string ref.digest)) (chunk_digests refs) ≡ true
named-chunk ref [] i = elim i [ ]
named-chunk ref (x ∷ xs) (inl q) =
    rw (← q, (eq_iff (to_string ref.digest) (to_string ref.digest)).1 refl) refl
named-chunk ref (x ∷ xs) (inr i) = rw (named-chunk ref xs i) (ground arith)

-- While a promotion is prepared, no garbage collection removes a chunk of the source that it has
-- frozen, even if the source and everything else that referred to it are gone.
pub collect_garbage-prepared :
    (c : Cache) (report : GcReport) (id : String) (p : Promotion) (ref : ChunkRef)
    → IsKeyed c.store
    → get_promotion id c.store ≡ ok p
    → p.status ≡ promotion_prepared
    → In ref p.source_chunks
    → (collect_garbage c).0 ≡ ok report
    → get_blob ref.digest (collect_garbage c).1.store ≡ get_blob ref.digest c.store
unfolding get_promotion
collect_garbage-prepared c report id p ref v g s i h =
    let k = to_string ref.digest in
    let refers_p : any (named k) (promotion_digests p) ≡ true =
      rw s (named-chunk ref p.source_chunks i) in
    elim (Option-cases (get id c.store.promotions)) [
      | inl e ↦ absurd (cc (rw e at g))
      | inr (x, e) ↦
          let same : ◌≡◌ {A = Option Promotion} (some x) (some p) = cc (rw e at g) in
          let used : in_use (next_reading c) c.store (named k) ≡ true =
            rw
              (any-values (λ (z : Promotion). any (named k) (promotion_digests z)) id p
                c.store.promotions (e ∙ same) refers_p)
              (ground arith) in
          collect_garbage-precise c report ref.digest v h ∙ rw used refl
    ]
