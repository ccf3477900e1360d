-- ===== src/Cache/Eviction/Usage.antt =====
-- The bytes that a namespace holds, as an exact sum, beside the int64 sum of namespaceUsedLocked.
use go_build_cache.Prelude.{
  ℕ, ◌+◌, ◌<◌, String, ◌≡◌, refl, ◌∙◌, none, some, List, [], ◌∷◌, arith, str_eq, eq_iff,
  if◌then◌else◌, sort_by, Bool-cases, inl, inr,
}
use go_build_cache.Prelude.Sorting.{sum_by, sum_by-sort_by}
use go_build_cache.Prelude.Exec.{ok}
use go_build_cache.Prelude.Int64.{two64, add64_exact}
use go_build_cache.Prelude.Maps.{Map, get, delete, values, Unique, string_eq}
use go_build_cache.Model.{Entry}
use go_build_cache.Store.{MemoryStore, entry_map_key}
use go_build_cache.Store.Entries.{get_entry, delete_entry, list_entries, entry_before}
use go_build_cache.Cache.Eviction.Plan.{used_from, namespace_used}

-- What an entry counts for in a namespace.
abbrev pub weight : String → Entry → ℕ
weight ns e = if str_eq e.namespace ns then e.total_size else 0

abbrev pub size_sum : String → List Entry → ℕ
size_sum ns = sum_by (weight ns)

-- The bytes of a namespace.
abbrev pub bytes_in : String → MemoryStore → ℕ
bytes_in ns m = size_sum ns (values m.entries)

module _ (ns : String) where
  used_from-size_sum :
      (used : ℕ) (es : List Entry)
      → used + size_sum ns es < two64
      → used_from ns used es ≡ used + size_sum ns es
  unfolding used_from
  used_from-size_sum used [] h = omega arith
  used_from-size_sum used (e ∷ es) h = elim (Bool-cases (str_eq e.namespace ns)) [
    | inl y ↦
        rw (y, add64_exact used e.total_size (ground (arith, rw y at h)))
          (used_from-size_sum (used + e.total_size) es (ground (arith, rw y at h)) ∙ omega arith)
    | inr n ↦ rw n (used_from-size_sum used es (let q = rw n at h in omega arith) ∙ omega arith)
  ]

  -- Where the sum fits, the int64 loop computes it.
  pub namespace_used_lem :
      (m : MemoryStore) → bytes_in ns m < two64 → namespace_used ns m ≡ bytes_in ns m
  unfolding namespace_used list_entries
  namespace_used_lem m h =
      let e = sum_by-sort_by entry_before (weight ns) (values m.entries) in
      used_from-size_sum 0 (sort_by entry_before (values m.entries)) (rw e (omega arith))
      ∙ rw e (omega arith)

  size_sum-delete_absent :
      (k : String) (m : Map String Entry)
      → get k m ≡ none
      → size_sum ns (values (delete k m)) ≡ size_sum ns (values m)
  unfolding get delete values
  size_sum-delete_absent k [] g = refl
  size_sum-delete_absent k ((j, e) ∷ m) g = elim (Bool-cases (str_eq j k)) [
    | inl y ↦ absurd (cc (rw y at g))
    | inr n ↦ rw (n, size_sum-delete_absent k m (rw n at g)) refl
  ]

  -- A deletion takes away what the entry counted for.
  size_sum-delete :
      (k : String) (e : Entry) (m : Map String Entry)
      → Unique m
      → get k m ≡ some e
      → size_sum ns (values m) ≡ weight ns e + size_sum ns (values (delete k m))
  unfolding get delete values
  size_sum-delete k e [] u g = absurd (cc g)
  size_sum-delete k e ((j, x) ∷ m) u g = elim (Bool-cases (str_eq j k)) [
    | inl y ↦
        let gone = size_sum-delete_absent k m (rw (← (eq_iff j k).0 y) u.0) in
        rw (y, gone) (ground (arith, rw y at g))
    | inr n ↦ rw (n, size_sum-delete k e m u.1 (rw n at g)) (omega arith)
  ]

  pub bytes_in-delete_entry :
      (key : String) (e : Entry) (m : MemoryStore)
      → Unique m.entries
      → get_entry ns key m ≡ ok e
      → e.namespace ≡ ns
      → bytes_in ns m ≡ e.total_size + bytes_in ns (delete_entry ns key m)
  unfolding get_entry delete_entry
  bytes_in-delete_entry key e m u g n =
      size_sum-delete (entry_map_key ns key) e m.entries u (ground (arith, g))
      ∙ rw (n, (eq_iff ns ns).1 refl) refl
