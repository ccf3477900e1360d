-- ===== src/Cache/Collection/Live.antt =====
-- What the mark finds: a blob is marked exactly when something refers to it.
use go_build_cache.Prelude.{
  String, ◌≡◌, refl, ◌∙◌, Bool, true, false, ◌||◌, List, [], ◌∷◌, any, sort_by, any-sort_by, arith,
  str_eq, eq_iff, Bool-cases, inl, inr,
}
use go_build_cache.Prelude.Maps.{get, put, get-put, values, string_eq}
use go_build_cache.Digest.{Digest, to_string, equal}
use go_build_cache.Model.{Time}
use go_build_cache.Store.{MemoryStore}
use go_build_cache.Store.Entries.{list_entries}
use go_build_cache.Store.Sessions.{list_sessions}
use go_build_cache.Store.Pins.{list_pins}
use go_build_cache.Store.Promotions.{list_promotions}
use go_build_cache.Cache.Collection.Mark.{
  TextSet, entry_digests, session_digests, pin_digests, promotion_digests, mark, mark_each,
  build_live_set, refers, death_reason,
}
use go_build_cache.Cache.Collection.Collect.{is_live}

-- Something that is stored refers to a digest with the property: a published entry, an open session
-- whose lease runs, an active pin lease, or a prepared promotion.
abbrev pub in_use : Time → MemoryStore → (Digest → Bool) → Bool
in_use now m p =
    refers entry_digests p (values m.entries)
    || (refers (session_digests now) p (values m.sessions)
        || (refers (pin_digests now) p (values m.pins)
            || refers promotion_digests p (values m.promotions)))

abbrev pub named : String → Digest → Bool
named k d = str_eq (to_string d) k

get-mark :
    (k : String) (ds : List Digest) (live : TextSet)
    → is_live (get k (mark ds live)) ≡ (any (named k) ds || is_live (get k live))
unfolding mark
get-mark k [] live = refl
get-mark k (d ∷ ds) live =
    get-mark k ds (put (to_string d) tt live)
    ∙ rw (get-put (to_string d) k tt live) (elim (Bool-cases (str_eq (to_string d) k)) [
      | inl y ↦ rw y (ground arith)
      | inr n ↦ rw n refl
    ])

get-mark_each :
    {A : Type 0} (digests : A → List Digest) (k : String) (xs : List A) (live : TextSet)
    → is_live (get k (mark_each digests xs live))
      ≡ (refers digests (named k) xs || is_live (get k live))
unfolding mark_each
get-mark_each digests k [] live = refl
get-mark_each digests k (x ∷ xs) live =
    get-mark_each digests k xs (mark (digests x) live)
    ∙ rw (get-mark k (digests x) live) (ground arith)

-- The marked texts are those of the digests in use.
pub get-build_live_set :
    (k : String) (now : Time) (m : MemoryStore)
    → is_live (get k (build_live_set now m)) ≡ in_use now m (named k)
unfolding build_live_set list_entries list_sessions list_pins list_promotions get
get-build_live_set k now m =
    let entries = mark_each entry_digests (list_entries m) [] in
    let sessions = mark_each (session_digests now) (list_sessions m) entries in
    let pins = mark_each (pin_digests now) (list_pins m) sessions in
    let a = get-mark_each promotion_digests k (list_promotions m) pins in
    let b = get-mark_each (pin_digests now) k (list_pins m) sessions in
    let c = get-mark_each (session_digests now) k (list_sessions m) entries in
    let d = get-mark_each entry_digests k (list_entries m) [] in
    rw
      (
        a,
        b,
        c,
        d,
        any-sort_by _ _ (values m.promotions),
        any-sort_by _ _ (values m.pins),
        any-sort_by _ _ (values m.sessions),
        any-sort_by _ _ (values m.entries),
      )
      (ground arith)

any-weaken :
    {A : Type 0} (p q : A → Bool) (xs : List A)
    → ((x : A) → p x ≡ true → q x ≡ true)
    → any q xs ≡ false
    → any p xs ≡ false
any-weaken p q [] f h = refl
any-weaken p q (x ∷ xs) f h = ground (arith, f x, any-weaken p q xs f)

any-true :
    {A : Type 0} (p q : A → Bool) (xs : List A)
    → ((x : A) → p x ≡ true → q x ≡ true)
    → any p xs ≡ true
    → any q xs ≡ true
any-true p q [] f h = h
any-true p q (x ∷ xs) f h = ground (arith, f x, any-true p q xs f)

refers-weaken :
    {A : Type 0} (digests : A → List Digest) (p q : Digest → Bool) (xs : List A)
    → ((d : Digest) → p d ≡ true → q d ≡ true)
    → refers digests q xs ≡ false
    → refers digests p xs ≡ false
refers-weaken digests p q xs f =
    any-weaken (λ x. any p (digests x)) (λ x. any q (digests x)) xs
      (λ x. any-true p q (digests x) f)

equal-named : (d e : Digest) → equal e d ≡ true → named (to_string d) e ≡ true
unfolding equal to_string
equal-named d e h = ground (
  arith,
  h,
  eq_iff d.algo e.algo,
  eq_iff e.algo d.algo,
  eq_iff d.hex e.hex,
  eq_iff e.hex d.hex,
  eq_iff (to_string d) (to_string e),
)

unused_part :
    {A : Type 0} (digests : A → List Digest) (less : A → A → Bool) (d : Digest) (xs : List A)
    → refers digests (named (to_string d)) xs ≡ false
    → refers digests (λ ref. equal ref d) (sort_by less xs) ≡ false
unused_part digests less d xs h =
    any-sort_by less (λ x. any (λ ref. equal ref d) (digests x)) xs
    ∙ refers-weaken digests (λ ref. equal ref d) (named (to_string d)) xs (equal-named d) h

in_use_parts :
    (now : Time) (m : MemoryStore) (p : Digest → Bool)
    → in_use now m p ≡ false
    → (refers entry_digests p (values m.entries) ≡ false)
      × (refers (session_digests now) p (values m.sessions) ≡ false)
      × (refers (pin_digests now) p (values m.pins) ≡ false)
      × (refers promotion_digests p (values m.promotions) ≡ false)
in_use_parts now m p h = ground (arith, h)

-- What is not in use has a reason to go: the second look keeps no blob that the mark has left out.
pub death_reason-unused :
    (d : Digest) (now : Time) (m : MemoryStore)
    → in_use now m (named (to_string d)) ≡ false
    → str_eq (death_reason d now m) "" ≡ false
unfolding death_reason list_entries list_sessions list_pins list_promotions
death_reason-unused d now m h =
    let (a, b, c, e) = in_use_parts now m (named (to_string d)) h in
    rw
      (
        unused_part entry_digests _ d (values m.entries) a,
        unused_part (session_digests now) _ d (values m.sessions) b,
        unused_part (pin_digests now) _ d (values m.pins) c,
        unused_part promotion_digests _ d (values m.promotions) e,
      )
      refl
