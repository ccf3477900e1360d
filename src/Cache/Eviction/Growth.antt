-- ===== src/Cache/Eviction/Growth.antt =====
-- How a write of an entry changes the bytes of its namespace.
use go_build_cache.Prelude.{
  ◌+◌, ◌≤◌, String, ◌≡◌, refl, ◌∙◌, none, some, [], ◌∷◌, arith, str_eq, eq_iff, Bool-cases, inl,
  inr,
}
use go_build_cache.Prelude.Exec.{ok, err}
use go_build_cache.Prelude.Maps.{Map, get, put, values, string_eq}
use go_build_cache.Model.{Entry}
use go_build_cache.Errors.{entry_not_found}
use go_build_cache.Store.{MemoryStore, entry_map_key}
use go_build_cache.Store.Entries.{get_entry}
use go_build_cache.Store.Entries.Swap.{stored}
use go_build_cache.Cache.Eviction.Usage.{weight, size_sum, bytes_in}

some_inj : (x w : Entry) → some x ≡ some w → x ≡ w
some_inj x w h = cc

module _ (ns : String) where
  size_sum-put_free :
      (k : String) (v : Entry) (m : Map String Entry)
      → get k m ≡ none
      → size_sum ns (values (put k v m)) ≡ weight ns v + size_sum ns (values m)
  unfolding get put values
  size_sum-put_free k v [] g = refl
  size_sum-put_free k v ((j, w) ∷ m) g = elim (Bool-cases (str_eq j k)) [
    | inl y ↦ absurd (cc (rw y at g))
    | inr n ↦ rw (n, size_sum-put_free k v m (rw n at g)) (omega arith)
  ]

  size_sum-put_over :
      (k : String) (v w : Entry) (m : Map String Entry)
      → get k m ≡ some w
      → size_sum ns (values (put k v m)) + weight ns w ≡ weight ns v + size_sum ns (values m)
  unfolding get put values
  size_sum-put_over k v w [] g = absurd (cc g)
  size_sum-put_over k v w ((j, x) ∷ m) g = elim (Bool-cases (str_eq j k)) [
    | inl y ↦ let same : x ≡ w = some_inj x w (rw y at g) in rw (y, same) (omega arith)
    | inr n ↦ let ih = size_sum-put_over k v w m (rw n at g) in rw n (omega arith)
  ]

  weight-inside : (e : Entry) → e.namespace ≡ ns → weight ns e ≡ e.total_size
  weight-inside e n = rw ((eq_iff e.namespace ns).1 n) refl

  pub bytes_in-stored_free :
      (e : Entry) (m : MemoryStore)
      → e.namespace ≡ ns
      → get_entry e.namespace e.key m ≡ err entry_not_found
      → bytes_in ns (stored e m) ≡ e.total_size + bytes_in ns m
  unfolding get_entry
  bytes_in-stored_free e m n g =
      size_sum-put_free (entry_map_key e.namespace e.key) e m.entries (ground (arith, g))
      ∙ rw (n, (eq_iff ns ns).1 refl) refl

  pub bytes_in-stored_over :
      (e w : Entry) (m : MemoryStore)
      → e.namespace ≡ ns
      → w.namespace ≡ ns
      → get_entry e.namespace e.key m ≡ ok w
      → bytes_in ns (stored e m) + w.total_size ≡ e.total_size + bytes_in ns m
  unfolding get_entry
  bytes_in-stored_over e w m n nw g =
      let sums =
        size_sum-put_over (entry_map_key e.namespace e.key) e w m.entries (ground (arith, g)) in
      rw (weight-inside e n, weight-inside w nw) at sums

size_sum-part :
    (ns k : String) (w : Entry) (m : Map String Entry)
    → get k m ≡ some w
    → w.namespace ≡ ns
    → w.total_size ≤ size_sum ns (values m)
unfolding get values
size_sum-part ns k w [] g n = absurd (cc g)
size_sum-part ns k w ((j, x) ∷ m) g n = elim (Bool-cases (str_eq j k)) [
  | inl y ↦
      let same : x ≡ w = some_inj x w (rw y at g) in
      let own = weight-inside ns w n in rw same (omega arith)
  | inr q ↦ let ih = size_sum-part ns k w m (rw q at g) n in omega arith
]

pub bytes_in-part :
    (ns key : String) (m : MemoryStore) (w : Entry)
    → get_entry ns key m ≡ ok w
    → w.namespace ≡ ns
    → w.total_size ≤ bytes_in ns m
unfolding get_entry
bytes_in-part ns key m w g n =
    size_sum-part ns (entry_map_key ns key) w m.entries (ground (arith, g)) n
