-- ===== src/Cache/Namespaces/Deletion.antt =====
-- What is left of a namespace that has been deleted.
use go_build_cache.Prelude.{
  String, ◌≡◌, ◌≢◌, refl, sym, ap, subst, ◌∙◌, false, none, some, List, [], ◌∷◌, str_eq, eq_iff,
  if◌then◌else◌, Bool-cases, Option-cases, inl, inr, In,
}
use go_build_cache.Prelude.Sorting.{sort_by-In}
use go_build_cache.Prelude.Exec.{ok, err, Done, Result-cases}
use go_build_cache.Prelude.Maps.{Map, get, get-delete, values, string_eq}
use go_build_cache.Model.{Time, Entry, Pin, active}
use go_build_cache.Errors.{not_found}
use go_build_cache.Store.{MemoryStore, entry_map_key}
use go_build_cache.Store.Entries.{list_entries}
use go_build_cache.Store.Pins.{list_pins, delete_pin}
use go_build_cache.Store.Invariant.{IsKeyed, pin_key}
use go_build_cache.Store.Sessions as Stored
use go_build_cache.Cache.{Cache, next_reading, require_namespace}
use go_build_cache.Cache.Namespaces.{no_entry_left, clear_pins, delete_namespace}

unwrapped : {V : Type 0} (v w : V) → some w ≡ some v → v ≡ w
unwrapped v w h = cc

values-In :
    {V : Type 0} (k : String) (v : V) (m : Map String V) → get k m ≡ some v → In v (values m)
unfolding get values
values-In k v [] g = absurd (cc g)
values-In k v ((j, w) ∷ m) g = elim (Bool-cases (str_eq j k)) [
  | inl y ↦ inl (unwrapped v w (rw y at g))
  | inr n ↦ inr (values-In k v m (rw n at g))
]

other_name : (a b name : String) → str_eq a name ≡ false → b ≡ a → b ≢ name
other_name a b name n q same = let t = (eq_iff a name).1 (sym q ∙ same) in cc (n, t)

no_entry_left-none :
    (name : String) (es : List Entry) (e : Entry)
    → no_entry_left name es ≡ ok tt
    → In e es
    → e.namespace ≢ name
unfolding no_entry_left
no_entry_left-none name [] e h i = elim i [ ]
no_entry_left-none name (x ∷ xs) e h i = elim (Bool-cases (str_eq x.namespace name)) [
  | inl y ↦ absurd (cc (rw y at h))
  | inr n ↦ elim i [
    | inl q ↦ other_name x.namespace e.namespace name n (ap (λ (y : Entry). y.namespace) q)
    | inr j ↦ no_entry_left-none name xs e (rw n at h) j
  ]
]

get-delete_pin :
    (name key k : String) (m : MemoryStore)
    → get k (delete_pin name key m).pins
      ≡ (if str_eq (entry_map_key name key) k then none else get k m.pins)
unfolding delete_pin
get-delete_pin name key k m = get-delete (entry_map_key name key) k m.pins

-- Clearing only takes pins away.
clear_pins-get :
    (name : String) (now : Time) (ps : List Pin) (m : MemoryStore) (k : String) (w : Pin)
    → get k (clear_pins name now ps m).1.pins ≡ some w
    → get k m.pins ≡ some w
unfolding clear_pins
clear_pins-get name now [] m k w h = h
clear_pins-get name now (p ∷ ps) m k w h = elim (Bool-cases (str_eq p.namespace name)) [
  | inr n ↦ clear_pins-get name now ps m k w (rw n at h)
  | inl y ↦ elim (Bool-cases (active p now)) [
    | inl a ↦ rw (y, a) at h
    | inr a ↦
        let g = clear_pins-get name now ps (delete_pin name p.key m) k w (rw (y, a) at h) in
        let d = get-delete_pin name p.key k m in
        elim (Bool-cases (str_eq (entry_map_key name p.key) k)) [
          | inl z ↦ absurd (cc (rw z at d, g))
          | inr z ↦ sym (rw z at d) ∙ g
        ]
  ]
]

stays_gone :
    (name : String) (now : Time) (ps : List Pin) (m : MemoryStore) (k : String)
    → get k m.pins ≡ none
    → get k (clear_pins name now ps m).1.pins ≡ none
stays_gone name now ps m k h = elim (Option-cases (get k (clear_pins name now ps m).1.pins)) [
  | inl e ↦ e
  | inr (w, e) ↦ absurd (cc (h, clear_pins-get name now ps m k w e))
]

head_gone :
    (name : String) (x p : Pin) (m : MemoryStore)
    → p ≡ x
    → p.namespace ≡ name
    → get (pin_key p) (delete_pin name x.key m).pins ≡ none
head_gone name x p m q same =
    let there = entry_map_key name x.key in
    let k : there ≡ pin_key p = cc (q, same) in
    subst (λ (j : String). get j (delete_pin name x.key m).pins ≡ none) k
      (get-delete_pin name x.key there m ∙ rw ((eq_iff there there).1 refl) refl)

-- A clearing that passes has removed every listed pin of the namespace.
clear_pins-gone :
    (name : String) (now : Time) (ps : List Pin) (m : MemoryStore) (p : Pin)
    → (clear_pins name now ps m).0 ≡ ok tt
    → In p ps
    → p.namespace ≡ name
    → get (pin_key p) (clear_pins name now ps m).1.pins ≡ none
unfolding clear_pins
clear_pins-gone name now [] m p h i same = elim i [ ]
clear_pins-gone name now (x ∷ xs) m p h i same = elim (Bool-cases (str_eq x.namespace name)) [
  | inr n ↦ elim i [
    | inl q ↦
        absurd (other_name x.namespace p.namespace name n (ap (λ (y : Pin). y.namespace) q) same)
    | inr j ↦ rw n (clear_pins-gone name now xs m p (rw n at h) j same)
  ]
  | inl y ↦ elim (Bool-cases (active x now)) [
    | inl a ↦ absurd (cc (rw (y, a) at h))
    | inr a ↦
        let m1 = delete_pin name x.key m in
        elim i [
          | inr j ↦ rw (y, a) (clear_pins-gone name now xs m1 p (rw (y, a) at h) j same)
          | inl q ↦ rw (y, a) (stays_gone name now xs m1 (pin_key p) (head_gone name x p m q same))
        ]
  ]
]

clear_pins-rest :
    (name : String) (now : Time) (ps : List Pin) (m : MemoryStore)
    → ((clear_pins name now ps m).1.entries ≡ m.entries)
unfolding clear_pins delete_pin
clear_pins-rest name now [] m = refl
clear_pins-rest name now (p ∷ ps) m = elim (Bool-cases (str_eq p.namespace name)) [
  | inr n ↦ rw n (clear_pins-rest name now ps m)
  | inl y ↦ elim (Bool-cases (active p now)) [
    | inl a ↦ rw (y, a) refl
    | inr a ↦ rw (y, a) (clear_pins-rest name now ps (delete_pin name p.key m))
  ]
]

-- What a deletion that succeeds leaves in a store.
pub record Emptied (name : String) (m : MemoryStore) : Type 0 where
  pub no_entries : (k : String) (e : Entry) → get k m.entries ≡ some e → e.namespace ≢ name
  pub no_pins : (k : String) (p : Pin) → get k m.pins ≡ some p → p.namespace ≢ name
  pub no_namespace : Stored.get_namespace name m ≡ err not_found

deleted_store :
    (name : String) (c : Cache) (u : Done)
    → (delete_namespace name c).0 ≡ ok u
    → (no_entry_left name (list_entries c.store) ≡ ok tt)
      × ((clear_pins name (next_reading c) (list_pins c.store) c.store).0 ≡ ok tt)
      × ((delete_namespace name c).1.store
          ≡ Stored.delete_namespace name
              (clear_pins name (next_reading c) (list_pins c.store) c.store).1)
unfolding delete_namespace
deleted_store name c u h = elim (Result-cases (require_namespace name c.store)) [
  | inr (x, e1) ↦ absurd (cc (rw e1 at h))
  | inl (ns, e1) ↦ elim (Result-cases (no_entry_left name (list_entries c.store))) [
    | inr (x, e2) ↦ absurd (cc (rw (e1, e2) at h))
    | inl (v, e2) ↦
        elim (Result-cases (clear_pins name (next_reading c) (list_pins c.store) c.store).0) [
          | inr (x, e3) ↦ absurd (cc (rw (e1, e2, e3) at h))
          | inl (w, e3) ↦ (e2, e3, rw (e1, e2, e3) refl)
        ]
  ]
]

namespace_gone :
    (name : String) (m : MemoryStore)
    → Stored.get_namespace name (Stored.delete_namespace name m) ≡ err not_found
unfolding Stored.get_namespace Stored.delete_namespace
namespace_gone name m = rw (get-delete name name m.namespaces, (eq_iff name name).1 refl) refl

listed_pin_at :
    (m : MemoryStore) (k : String) (p : Pin) → get k m.pins ≡ some p → In p (list_pins m)
unfolding list_pins
listed_pin_at m k p g = sort_by-In _ p (values m.pins) (values-In k p m.pins g)

listed_entry_at :
    (m : MemoryStore) (k : String) (e : Entry) → get k m.entries ≡ some e → In e (list_entries m)
unfolding list_entries
listed_entry_at m k e g = sort_by-In _ e (values m.entries) (values-In k e m.entries g)

-- A namespace that has been deleted is empty: it is gone, and no entry and no pin lease, ended or not,
-- is left in it.
pub delete_namespace-Emptied :
    (name : String) (c : Cache) (u : Done)
    → IsKeyed c.store
    → (delete_namespace name c).0 ≡ ok u
    → Emptied name (delete_namespace name c).1.store
unfolding Stored.delete_namespace
delete_namespace-Emptied name c u v h =
    let m = c.store in
    let now = next_reading c in
    let (clean, cleared, after) = deleted_store name c u h in
    let ps = list_pins m in
    rw after (record {
      no_entries = λ k e g.
          no_entry_left-none name (list_entries m) e clean
            (listed_entry_at m k e (rw (← clear_pins-rest name now ps m) g));
      no_pins = λ k p g same.
          let old = clear_pins-get name now ps m k p g in
          let gone = clear_pins-gone name now ps m p cleared (listed_pin_at m k p old) same in
          let home =
            subst (λ (j : String). get j (clear_pins name now ps m).1.pins ≡ none)
              (sym (v.pins_at k p old)) gone in
          cc (home, g);
      no_namespace = namespace_gone name (clear_pins name now ps m).1;
    })
