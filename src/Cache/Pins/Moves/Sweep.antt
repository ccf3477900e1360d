-- ===== src/Cache/Pins/Moves/Sweep.antt =====
-- The sweep makes one move at every key.
use go_build_cache.Prelude.{
  ℕ, ◌≤◌, String, ◌≡◌, refl, ◌∙◌, true, false, Option, some, arith, eq_iff, str_eq, inl, inr,
  Bool-cases, List, [], ◌∷◌, In, In-sort_by,
}
use go_build_cache.Prelude.Maps.{values, Map, get, put, get-put, string_eq, In-values}
use go_build_cache.Model.{Time, Pin, pin_active}
use go_build_cache.Store.{MemoryStore, entry_map_key}
use go_build_cache.Store.Audit.{append_audit}
use go_build_cache.Store.Invariant.{IsKeyed}
use go_build_cache.Store.Pins.{save_pin, list_pins}
use go_build_cache.Cache.{Cache, next_reading}
use go_build_cache.Cache.Pins.Sweep.{
  sweep_pins, sweep_expired_pins, sweep_expired_pins_locked, is_overdue, expire, sweep_record,
}
use go_build_cache.Cache.Pins.Moves.{Move, kept, expired, lease_at}

-- What the sweep leaves at a key: what stood there, or a pin of the list, expired.
data SweptAt (now : Time) (k : String) (ps : List Pin) (old new : Option Pin) : Type 0 where
  left_alone : new ≡ old → SweptAt now k ps old new
  swept :
      (p : Pin)
      → In p ps
      → is_overdue now p ≡ true
      → entry_map_key p.namespace p.key ≡ k
      → new ≡ some (expire now p)
      → SweptAt now k ps old new

swept_later :
    (now : Time) (k : String) (p : Pin) (ps : List Pin) {old new : Option Pin}
    → SweptAt now k ps old new
    → SweptAt now k (p ∷ ps) old new
swept_later now k p ps (left_alone e) = left_alone e
swept_later now k p ps (swept q i o h e) = swept q (inr i) o h e

swept_first :
    (now : Time) (k : String) (p : Pin) (ps : List Pin) (m : Map String Pin) {new : Option Pin}
    → is_overdue now p ≡ true
    → SweptAt now k ps (get k (put (entry_map_key p.namespace p.key) (expire now p) m)) new
    → SweptAt now k (p ∷ ps) (get k m) new
swept_first now k p ps m o (swept q i r h e) = swept q (inr i) r h e
swept_first now k p ps m o (left_alone e) =
    let there = entry_map_key p.namespace p.key in
    elim (Bool-cases (str_eq there k)) [
      | inl same ↦
          swept p (inl refl) o ((eq_iff there k).0 same)
            (e ∙ get-put there k (expire now p) m ∙ rw same)
      | inr other ↦ left_alone (e ∙ get-put there k (expire now p) m ∙ rw other)
    ]

sweep_pins-SweptAt :
    (now : Time) (gen : ℕ) (k : String) (ps : List Pin) (m : MemoryStore)
    → SweptAt now k ps (get k m.pins) (get k (sweep_pins now gen ps m).1.pins)
unfolding sweep_pins append_audit save_pin
sweep_pins-SweptAt now gen k [] m = left_alone refl
sweep_pins-SweptAt now gen k (p ∷ ps) m = elim (Bool-cases (is_overdue now p)) [
  | inl o ↦ rw o (
      swept_first now k p ps m.pins o (
        sweep_pins-SweptAt now gen k ps
          (append_audit (sweep_record now gen (expire now p)) (save_pin (expire now p) m))))
  | inr n ↦ rw n (swept_later now k p ps (sweep_pins-SweptAt now gen k ps m))
]

is_overdue_parts :
    (now : Time) (p : Pin) → is_overdue now p ≡ true → (p.status ≡ pin_active) × (p.deadline ≤ now)
unfolding is_overdue
is_overdue_parts now p h = ground arith

-- A listed pin stands under its own key.
pub listed_pin :
    (m : MemoryStore) (p : Pin)
    → IsKeyed m
    → In p (list_pins m)
    → get (entry_map_key p.namespace p.key) m.pins ≡ some p
unfolding list_pins
listed_pin m p v h =
    let (k, g) = In-values p m.pins v.unique_pins (In-sort_by _ p (values m.pins) h) in
    rw (← v.pins_at k p g) g

SweptAt-Move :
    (now : Time) (k : String) (m : MemoryStore) (new : Option Pin)
    → IsKeyed m
    → SweptAt now k (list_pins m) (get k m.pins) new
    → Move false now (get k m.pins) new
unfolding expire
SweptAt-Move now k m new v (left_alone e) = kept e
SweptAt-Move now k m new v (swept p i o h e) =
    let (st, dl) = is_overdue_parts now p o in
    expired p (expire now p) (rw (← h) (listed_pin m p v i)) e refl st dl refl

pub sweep_expired_pins-Move :
    (c : Cache) (k : String)
    → IsKeyed c.store
    → Move false (next_reading c) (lease_at k c) (lease_at k (sweep_expired_pins c).1)
unfolding sweep_expired_pins sweep_expired_pins_locked
sweep_expired_pins-Move c k v =
    SweptAt-Move (next_reading c) k c.store _ v
      (sweep_pins-SweptAt (next_reading c) 0 k (list_pins c.store) c.store)
