-- ===== src/Store/Entries/Swap.antt =====
-- memory_store.go: what the version condition of PutEntry promises its callers, and when the joined
-- map key tells two identities apart.
use Prim.Native.Char.{Char, code, nul}
use text.Mathlib.TextLemmas.{nil-append, cons-append}
use go_build_cache.Prelude.{
  ℕ, String, ◌≡◌, ◌≢◌, refl, Bool, true, false, not, ◌&&◌, some, arith, ◌==◌, str_eq, eq_iff,
  Bool-cases, Option-cases, inl, inr, ◌⊎◌, if◌then◌else◌, ==_iff,
}
use go_build_cache.Prelude.Exec.{Result, ok, err}
use go_build_cache.Prelude.Int64.{lt64}
use go_build_cache.Prelude.Maps.{get, put, get-put, string_eq}
use go_build_cache.Model.{Entry}
use go_build_cache.Errors.{Error, cas_failed}
use go_build_cache.Store.{MemoryStore, entry_map_key}
use go_build_cache.Store.Entries.{put_entry_at, put_entry, get_entry}

-- The condition, read off the comment of PutEntry: a negative version asks for a free key.
abbrev pub Matches : ℕ → Result Error Entry → Type 0
Matches want (ok e) = (lt64 want 0 ≡ false) × (e.version ≡ want)
Matches want (err x) = lt64 want 0 ≡ true

-- The store with the entry written.
abbrev pub stored : Entry → MemoryStore → MemoryStore
stored e m = record m { entries = put (entry_map_key e.namespace e.key) e m.entries }

-- What a key holds after the write.
pub get_entry-stored :
    (e : Entry) (ns key : String) (m : MemoryStore)
    → get_entry ns key (stored e m) ≡ (
        if str_eq (entry_map_key e.namespace e.key) (entry_map_key ns key)
        then ok e
        else get_entry ns key m)
unfolding get_entry
get_entry-stored e ns key m =
    let there = entry_map_key e.namespace e.key in
    rw (get-put there (entry_map_key ns key) e m.entries)
      (elim (Bool-cases (str_eq there (entry_map_key ns key))) [
        | inl y ↦ rw y refl
        | inr n ↦ rw n refl
      ])

pub put_entry-stored :
    (e : Entry) (want : ℕ) (m : MemoryStore)
    → Matches want (get_entry e.namespace e.key m)
    → put_entry e want m ≡ ok (stored e m)
unfolding put_entry put_entry_at get_entry
put_entry-stored e want m h =
    elim (Option-cases (get (entry_map_key e.namespace e.key) m.entries)) [
      | inl g ↦ rw g (ground (arith, rw g at h))
      | inr (x, g) ↦ rw g (ground (arith, rw g at h))
    ]

pub put_entry-refused :
    (e : Entry) (want : ℕ) (m : MemoryStore)
    → ¬ Matches want (get_entry e.namespace e.key m)
    → put_entry e want m ≡ err cas_failed
unfolding put_entry put_entry_at get_entry
put_entry-refused e want m h =
    elim (Option-cases (get (entry_map_key e.namespace e.key) m.entries)) [
      | inl g ↦ elim (Bool-cases (lt64 want 0)) [
        | inl y ↦ absurd (h (rw g y))
        | inr n ↦ rw (g, n) refl
      ]
      | inr (x, g) ↦ elim (Bool-cases (lt64 want 0)) [
        | inl y ↦ rw (g, y) refl
        | inr n ↦ elim (Bool-cases (x.version == want)) [
          | inl y ↦ absurd (h (rw g (n, (==_iff x.version want).0 y)))
          | inr q ↦ rw (g, n, q) refl
        ]
      ]
    ]

-- Where the version condition holds, PutEntry succeeds, the key then gives the new entry, and every
-- other key gives what it gave before; where it does not hold, PutEntry fails with the CAS error.
pub put_entry_lem :
    (e : Entry) (want : ℕ) (m : MemoryStore)
    → (Matches want (get_entry e.namespace e.key m)
        → (m1 : MemoryStore) × (put_entry e want m ≡ ok m1)
          × ((ns key : String)
              → get_entry ns key m1 ≡ (
                  if str_eq (entry_map_key e.namespace e.key) (entry_map_key ns key)
                  then ok e
                  else get_entry ns key m)))
      × ((¬ Matches want (get_entry e.namespace e.key m)) → put_entry e want m ≡ err cas_failed)
put_entry_lem e want m = (
  λ h. (stored e m, put_entry-stored e want m h, λ ns key. get_entry-stored e ns key m),
  put_entry-refused e want m,
)

pub put_entry-ok :
    (e : Entry) (want : ℕ) (m m1 : MemoryStore) → put_entry e want m ≡ ok m1 → stored e m ≡ m1
unfolding put_entry put_entry_at
put_entry-ok e want m m1 h = elim (Option-cases (get (entry_map_key e.namespace e.key) m.entries)) [
  | inl g ↦ ground (arith, rw g at h)
  | inr (x, g) ↦ ground (arith, rw g at h)
]

put_entry-other :
    (f e : Entry) (want : ℕ) (m : MemoryStore)
    → get (entry_map_key f.namespace f.key) m.entries ≡ some e
    → e.version ≢ want
    → put_entry f want m ≡ err cas_failed
unfolding put_entry put_entry_at
put_entry-other f e want m g ne = rw g (ground arith)

-- Of two writers of one key that ask for the same version, only the first succeeds, when its entry has
-- another version than the one asked for.
pub put_entry-once :
    (e f : Entry) (want : ℕ) (m m1 : MemoryStore)
    → put_entry e want m ≡ ok m1
    → f.namespace ≡ e.namespace
    → f.key ≡ e.key
    → e.version ≢ want
    → put_entry f want m1 ≡ err cas_failed
put_entry-once e f want m m1 h ns k ne =
    let there = entry_map_key e.namespace e.key in
    put_entry-other f e want m1
      (rw
        (
          ns,
          k,
          ← put_entry-ok e want m m1 h,
          get-put there there e m.entries,
          (eq_iff there there).1 refl,
        )
        refl)
      ne

unfoldable pub no_nul : String → Bool
no_nul String.[] = true
no_nul (String.◌∷◌ c s) = not (code c == 0) && no_nul s

no_nul-head : (c : Char) (s : String) → no_nul (String.◌∷◌ c s) ≡ true → c ≢ nul
unfolding no_nul
no_nul-head c s h e = cc (rw e at h)

-- Identities whose namespaces hold no NUL have different map keys.
pub entry_map_key-injective :
    (a k b j : String)
    → no_nul a ≡ true
    → no_nul b ≡ true
    → entry_map_key a k ≡ entry_map_key b j
    → (a ≡ b) × (k ≡ j)
unfolding entry_map_key no_nul
entry_map_key-injective String.[] k String.[] j ha hb h =
    ground (arith, nil-append (String.◌∷◌ nul k), nil-append (String.◌∷◌ nul j))
entry_map_key-injective String.[] k (String.◌∷◌ d b) j ha hb h =
    ground
      (arith, no_nul-head d b hb, nil-append (String.◌∷◌ nul k), cons-append d b (String.◌∷◌ nul j))
entry_map_key-injective (String.◌∷◌ c a) k String.[] j ha hb h =
    ground
      (arith, no_nul-head c a ha, nil-append (String.◌∷◌ nul j), cons-append c a (String.◌∷◌ nul k))
entry_map_key-injective (String.◌∷◌ c a) k (String.◌∷◌ d b) j ha hb h = ground (
  arith,
  cons-append c a (String.◌∷◌ nul k),
  cons-append d b (String.◌∷◌ nul j),
  entry_map_key-injective a k b j,
)

-- A write has only two outcomes.
pub put_entry_outcome :
    (e : Entry) (want : ℕ) (m : MemoryStore)
    → (put_entry e want m ≡ ok (stored e m)) ⊎ (put_entry e want m ≡ err cas_failed)
unfolding put_entry put_entry_at
put_entry_outcome e want m = elim (Option-cases (get (entry_map_key e.namespace e.key) m.entries)) [
  | inl g ↦ elim (Bool-cases (lt64 want 0)) [
    | inl y ↦ inl (rw (g, y) refl)
    | inr n ↦ inr (rw (g, n) refl)
  ]
  | inr (x, g) ↦ elim (Bool-cases (lt64 want 0)) [
    | inl y ↦ inr (rw (g, y) refl)
    | inr n ↦ elim (Bool-cases (x.version == want)) [
      | inl y ↦ inl (rw (g, n, y) refl)
      | inr q ↦ inr (rw (g, n, q) refl)
    ]
  ]
]
