-- ===== src/Cache/Collection/Removal.antt =====
-- What the loop over the blobs removes.
use go_build_cache.Prelude.{
  ℕ, String, ◌≡◌, refl, sym, subst, ◌∙◌, Bool, true, false, not, ◌&&◌, ◌||◌, Option, none, some,
  List, [], ◌∷◌, if◌then◌else◌, any, any-sort_by, length, arith, str_eq, eq_iff, Bool-cases, inl,
  inr,
}
use go_build_cache.Prelude.Exec.{Result, ok, err, Result-cases}
use go_build_cache.Prelude.Maps.{Map, get, get-delete, string_eq}
use go_build_cache.Digest.{Digest, to_string, parse_digest}
use go_build_cache.Digest.RoundTrip.{to_string-parse_digest}
use go_build_cache.Model.{Time}
use go_build_cache.Errors.{Error}
use go_build_cache.Store.{MemoryStore, BlobInfo, Bytes}
use go_build_cache.Store.Audit.{append_audit}
use go_build_cache.Store.Blobs.{delete_blob, list_blobs, blob_infos, add_info}
use go_build_cache.Cache.{Cache}
use go_build_cache.Cache.Collection.Mark.{TextSet, death_reason}
use go_build_cache.Cache.Collection.Collect.{is_live, collect_blobs, remove_blob}
use go_build_cache.Cache.Collection.Live.{in_use, named, death_reason-unused}

abbrev pub listed : String → List BlobInfo → Bool
listed k = any λ (b : BlobInfo). named k b.digest

abbrev listed_in : String → Result Error (List BlobInfo) → Bool
listed_in k (ok bs) = listed k bs
listed_in k (err e) = false

-- The mark is right for the store.
abbrev pub Marked : Time → TextSet → MemoryStore → Type 0
Marked now live m = (k : String) → is_live (get k live) ≡ in_use now m (named k)

-- Both sides of the loop's step, by what is named and used.
kept_step :
    (n l u : Bool) (x : Option Bytes)
    → (n ≡ true → u ≡ true)
    → (if l && not u then none else x) ≡ (if (n || l) && not u then none else x)
kept_step n l u x h = ground (arith, h)

removed_step :
    (n l u : Bool) (x : Option Bytes)
    → (n ≡ true → u ≡ false)
    → (if l && not u then none else (if n then none else x))
      ≡ (if (n || l) && not u then none else x)
removed_step n l u x h = ground (arith, h)

-- Under the name of a digest the mark says whether it is in use.
in_use-named :
    (start : Time) (live : TextSet) (m : MemoryStore) (k : String) (d : Digest) (t : Bool)
    → Marked start live m
    → is_live (get (to_string d) live) ≡ t
    → named k d ≡ true
    → in_use start m (named k) ≡ t
in_use-named start live m k d t v h n =
    subst (λ (j : String). in_use start m (named j) ≡ t) ((eq_iff (to_string d) k).0 n)
      (sym (v (to_string d)) ∙ h)

get-remove_blob :
    (gen : ℕ) (b : BlobInfo) (reason k : String) (c : Cache)
    → get k (remove_blob gen b reason c).store.blobs
      ≡ (if named k b.digest then none else get k c.store.blobs)
unfolding remove_blob append_audit delete_blob
get-remove_blob gen b reason k c = get-delete (to_string b.digest) k c.store.blobs

in_use-remove_blob :
    (start : Time) (gen : ℕ) (b : BlobInfo) (reason : String) (c : Cache) (p : Digest → Bool)
    → in_use start (remove_blob gen b reason c).store p ≡ in_use start c.store p
unfolding remove_blob append_audit delete_blob
in_use-remove_blob start gen b reason c p = refl

remove_blob-Marked :
    (start : Time) (gen : ℕ) (live : TextSet) (b : BlobInfo) (reason : String) (c : Cache)
    → Marked start live c.store
    → Marked start live (remove_blob gen b reason c).store
remove_blob-Marked start gen live b reason c v k =
    v k ∙ sym (in_use-remove_blob start gen b reason c (named k))

module _ (start : Time) (gen : ℕ) (live : TextSet) where
  -- The loop leaves a blob that is in use, or that was not listed, and removes every other.
  pub get-collect_blobs :
      (k : String) (bs : List BlobInfo) (c : Cache)
      → Marked start live c.store
      → get k (collect_blobs start gen live bs c).1.store.blobs ≡ (
          if listed k bs && not (in_use start c.store (named k)) then none else get k c.store.blobs)
  unfolding collect_blobs
  get-collect_blobs k [] c v = refl
  get-collect_blobs k (b ∷ bs) c v = elim (Bool-cases (is_live (get (to_string b.digest) live))) [
    | inl y ↦ rw y (
        get-collect_blobs k bs c v
        ∙ kept_step (named k b.digest) (listed k bs) (in_use start c.store (named k)) _
            (in_use-named start live c.store k b.digest true v y))
    | inr n ↦
        let gone = death_reason-unused b.digest start c.store (sym (v (to_string b.digest)) ∙ n) in
        let reason = death_reason b.digest start c.store in
        rw (n, gone)
          (get-collect_blobs k bs (remove_blob gen b reason c)
              (remove_blob-Marked start gen live b reason c v)
            ∙ rw
                (
                  in_use-remove_blob start gen b reason c (named k),
                  get-remove_blob gen b reason k c,
                )
                (removed_step (named k b.digest) (listed k bs) (in_use start c.store (named k)) _
                  (in_use-named start live c.store k b.digest false v n)))
  ]

-- The first blob of a list that could be made.
add_info_parts :
    (j : String) (bytes : Bytes) (rest : Result Error (List BlobInfo)) (infos : List BlobInfo)
    → add_info j bytes rest ≡ ok infos
    → (d : Digest) × (tail : List BlobInfo) × (parse_digest j ≡ ok d)
      × (rest ≡ ok tail)
      × (infos ≡ record { digest = d; size = length bytes } ∷ tail)
unfolding add_info
add_info_parts j bytes rest infos h = elim (Result-cases (parse_digest j)) [
  | inl (d, e) ↦ elim (Result-cases rest) [
    | inl (tail, f) ↦ (d, tail, e, f, cc (rw (add_info, e, f) at h))
    | inr (x, f) ↦ absurd (cc (rw (add_info, e, f) at h))
  ]
  | inr (x, e) ↦ absurd (cc (rw (add_info, e) at h))
]

-- Every stored blob is in the list, under the name of its key.
listed-blob_infos :
    (k : String) (v : Bytes) (m : Map String Bytes) (infos : List BlobInfo)
    → blob_infos m ≡ ok infos
    → get k m ≡ some v
    → listed k infos ≡ true
unfolding blob_infos get
listed-blob_infos k v [] infos h g = absurd (cc g)
listed-blob_infos k v ((j, bytes) ∷ m) infos h g =
    let (d, tail, e, f, q) = add_info_parts j bytes (blob_infos m) infos h in
    let name : to_string d ≡ j = (to_string-parse_digest j d e).0 in
    elim (Bool-cases (str_eq j k)) [
      | inl y ↦ rw (q, name, y) refl
      | inr n ↦ rw (q, name, n) (listed-blob_infos k v m tail f (rw n at g))
    ]

pub listed-list_blobs :
    (k : String) (v : Bytes) (m : MemoryStore) (infos : List BlobInfo)
    → list_blobs m ≡ ok infos
    → get k m.blobs ≡ some v
    → listed k infos ≡ true
unfolding list_blobs
listed-list_blobs k v m infos h g = elim (Result-cases (blob_infos m.blobs)) [
  | inl (found, e) ↦
      let same = rw (list_blobs, e) at h in
      subst (λ (r : Result Error (List BlobInfo)). listed_in k r ≡ true) same
        (any-sort_by _ (λ b. named k b.digest) found ∙ listed-blob_infos k v m.blobs found e g)
  | inr (x, e) ↦ absurd (cc (rw (list_blobs, e) at h))
]
