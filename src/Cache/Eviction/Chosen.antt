-- ===== src/Cache/Eviction/Chosen.antt =====
-- What a plan chooses: entries that may go, least recently used first, enough of them and no more than
-- enough.
use go_build_cache.Prelude.{
  String, ◌≡◌, ◌≢◌, refl, Bool, true, false, ◌&&◌, List, [], ◌∷◌, arith, str_eq, eq_iff, keep, any,
  inl, inr, In, In-sort_by,
}
use go_build_cache.Prelude.Sorting.{In-keep, keep-In, sort_by-In}
use go_build_cache.Prelude.Exec.{ok}
use go_build_cache.Prelude.Maps.{values, string_eq, In-values}
use go_build_cache.Model.{Time, Entry, Pin, active}
use go_build_cache.Store.{MemoryStore}
use go_build_cache.Store.Entries.{get_entry, list_entries, entry_before}
use go_build_cache.Store.Invariant.{IsKeyed}
use go_build_cache.Store.Pins.{list_pins}
use go_build_cache.Cache.Eviction.Plan.{is_pinned, is_candidate, lru_before, lru_candidates}

any-In :
    {A : Type 0} (p : A → Bool) (x : A) (xs : List A) → any p xs ≡ false → In x xs → p x ≡ false
any-In p x [] h i = elim i [ ]
any-In p x (y ∷ ys) h (inl q) = rw q (ground (arith, h))
any-In p x (y ∷ ys) h (inr i) = any-In p x ys (ground (arith, h)) i

-- The entry may be evicted from the namespace: it is there, is not the excluded one, and no lease that
-- is active protects it.
pub record MayGo (ns exclude : String) (now : Time) (m : MemoryStore) (e : Entry) : Type 0 where
  pub there : get_entry ns e.key m ≡ ok e
  pub inside : e.namespace ≡ ns
  pub not_excluded : e.key ≢ exclude
  pub unpinned :
      (p : Pin) → In p (list_pins m) → p.namespace ≡ ns → p.key ≡ e.key → active p now ≡ false

-- A listed entry is the one under its key.
listed_entry :
    (m : MemoryStore) (e : Entry)
    → IsKeyed m
    → In e (list_entries m)
    → get_entry e.namespace e.key m ≡ ok e
unfolding list_entries get_entry
listed_entry m e v h =
    let (k, g) =
      In-values e m.entries v.unique_entries (In-sort_by entry_before e (values m.entries) h) in
    rw (← v.entries_at k e g, g) refl

module _ (ns exclude : String) (now : Time) (m : MemoryStore) where
  pub is_candidate_parts :
      (e : Entry)
      → is_candidate ns exclude now (list_pins m) e ≡ true
      → (e.namespace ≡ ns) × (e.key ≢ exclude) × (is_pinned ns now (list_pins m) e.key ≡ false)
  unfolding is_candidate
  is_candidate_parts e h = ground (arith, h, eq_iff e.namespace ns, eq_iff e.key exclude)

  not_pinned :
      (key : String) (p : Pin)
      → is_pinned ns now (list_pins m) key ≡ false
      → In p (list_pins m)
      → p.namespace ≡ ns
      → p.key ≡ key
      → active p now ≡ false
  unfolding is_pinned
  not_pinned key p h i n k =
      let f =
        any-In (λ q. str_eq q.namespace ns && active q now && str_eq q.key key) p (list_pins m) h
          i in
      ground (arith, f, eq_iff p.namespace ns, eq_iff p.key key)

  pub lru_candidates-MayGo :
      (e : Entry) → IsKeyed m → In e (lru_candidates ns exclude now m) → MayGo ns exclude now m e
  unfolding lru_candidates
  lru_candidates-MayGo e v h =
      let test = is_candidate ns exclude now (list_pins m) in
      let (i, c) =
        In-keep test e (list_entries m) (In-sort_by lru_before e (keep test (list_entries m)) h) in
      let (n, x, u) = is_candidate_parts e c in
      record {
        there = rw (← n) (listed_entry m e v i);
        inside = n;
        not_excluded = x;
        unpinned = λ p j pn pk. not_pinned e.key p u j pn pk;
      }

  pub none_pinned :
      (key : String) (ps : List Pin)
      → ((p : Pin) → In p ps → p.namespace ≡ ns → p.key ≡ key → active p now ≡ false)
      → any (λ q. str_eq q.namespace ns && active q now && str_eq q.key key) ps ≡ false
  none_pinned key [] h = refl
  none_pinned key (p ∷ ps) h =
      let rest = none_pinned key ps (λ q i. h q (inr i)) in
      let first = h p (inl refl) in ground (arith, eq_iff p.namespace ns, eq_iff p.key key)

  pub MayGo-lru_candidates :
      (e : Entry)
      → In e (list_entries m)
      → MayGo ns exclude now m e
      → In e (lru_candidates ns exclude now m)
  unfolding lru_candidates is_candidate is_pinned
  MayGo-lru_candidates e i g =
      let test = is_candidate ns exclude now (list_pins m) in
      let free = none_pinned e.key (list_pins m) g.unpinned in
      let t : test e ≡ true =
        ground
          (arith, free, g.inside, g.not_excluded, eq_iff e.namespace ns, eq_iff e.key exclude) in
      sort_by-In lru_before e (keep test (list_entries m)) (keep-In test e (list_entries m) i t)
