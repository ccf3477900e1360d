-- ===== src/Cache/Collection/Harmless.antt =====
-- The sweeps that come before the mark: they change nothing that is in use.
use go_build_cache.Prelude.{
  ℕ, String, ◌≡◌, refl, sym, ◌∙◌, Bool, true, false, none, some, List, [], ◌∷◌, any, arith, str_eq,
  eq_iff, Bool-cases, Option-cases, inl, inr, In,
}
use go_build_cache.Prelude.Maps.{
  Map, get, put, delete, get-put, get-delete, values, string_eq, Unique, delete-Unique,
}
use go_build_cache.Digest.{Digest}
use go_build_cache.Model.{GcRecord, Time, Session, Pin, active}
use go_build_cache.Store.{MemoryStore}
use go_build_cache.Store.Audit.{append_audit}
use go_build_cache.Store.Invariant.{pin_key}
use go_build_cache.Store.Sessions.{delete_session}
use go_build_cache.Store.Pins.{save_pin}
use go_build_cache.Cache.{Cache}
use go_build_cache.Cache.Pins.Sweep.{sweep_pins, is_overdue, expire, sweep_record}
use go_build_cache.Cache.Sessions.Sweep.{sweep_reason, sweep_sessions, sweep_session_locked}
use go_build_cache.Cache.Collection.Mark.{session_digests, pin_digests, protects}
use go_build_cache.Cache.Collection.Live.{in_use}

module _ {V : Type 0} (p : V → Bool) where
  -- A write at a key whose value did not count, of a value that does not count.
  any-put :
      (k : String) (v : V) (m : Map String V)
      → p v ≡ false
      → ((w : V) → get k m ≡ some w → p w ≡ false)
      → any p (values (put k v m)) ≡ any p (values m)
  unfolding get put values
  any-put k v [] f h = rw f refl
  any-put k v ((j, w) ∷ m) f h = elim (Bool-cases (str_eq j k)) [
    | inl y ↦ let g = h w (rw y refl) in rw (y, f, g) refl
    | inr n ↦ rw (n, any-put k v m f (λ x e. h x (rw n e))) refl
  ]

  any-delete_absent :
      (k : String) (m : Map String V)
      → get k m ≡ none
      → any p (values (delete k m)) ≡ any p (values m)
  unfolding get delete values
  any-delete_absent k [] g = refl
  any-delete_absent k ((j, w) ∷ m) g = elim (Bool-cases (str_eq j k)) [
    | inl y ↦ absurd (cc (rw y at g))
    | inr n ↦ rw (n, any-delete_absent k m (rw n at g)) refl
  ]

  -- The deletion of a value that does not count.
  any-delete :
      (k : String) (m : Map String V)
      → Unique m
      → ((w : V) → get k m ≡ some w → p w ≡ false)
      → any p (values (delete k m)) ≡ any p (values m)
  unfolding get delete values
  any-delete k [] u h = refl
  any-delete k ((j, w) ∷ m) u h = elim (Bool-cases (str_eq j k)) [
    | inl y ↦
        let f = h w (rw y refl) in
        rw (y, any-delete_absent k m (rw (← (eq_iff j k).0 y) u.0), f) refl
    | inr n ↦ rw (n, any-delete k m u.1 (λ x e. h x (rw n e))) refl
  ]

any-none :
    {A B : Type 0} (digests : A → List B) (p : B → Bool) (x : A)
    → digests x ≡ []
    → any p (digests x) ≡ false
any-none digests p x h = rw h refl

inactive_digests : (now : Time) (p : Pin) → active p now ≡ false → pin_digests now p ≡ []
inactive_digests now p h = rw h refl

dead_digests : (now : Time) (s : Session) → protects now s ≡ false → session_digests now s ≡ []
dead_digests now s h = rw h refl

pub is_overdue-inactive : (now : Time) (p : Pin) → is_overdue now p ≡ true → active p now ≡ false
unfolding is_overdue active
is_overdue-inactive now p h = ground (arith, h)

expire-inactive : (now : Time) (p : Pin) → active (expire now p) now ≡ false
unfolding active expire
expire-inactive now p = refl

swept-dead :
    (now : Time) (s : Session) (reason : String)
    → sweep_reason now s s.status ≡ some reason
    → protects now s ≡ false
unfolding sweep_reason
swept-dead now s reason h = ground (arith, h)

-- The pins of a list that are overdue stand under their keys, or nothing that is active does.
abbrev pub Overdue : Time → List Pin → Map String Pin → Type 0
Overdue now ps m =
    (p : Pin) (w : Pin)
    → In p ps
    → is_overdue now p ≡ true
    → get (pin_key p) m ≡ some w
    → active w now ≡ false

same-inactive :
    (now : Time) (v w : Pin) → some v ≡ some w → active v now ≡ false → active w now ≡ false
same-inactive now v w e a = cc

Overdue-put :
    (now : Time) (k : String) (v : Pin) (ps : List Pin) (m : Map String Pin)
    → active v now ≡ false
    → Overdue now ps m
    → Overdue now ps (put k v m)
Overdue-put now k v ps m a h p w i o g =
    let e = get-put k (pin_key p) v m in
    elim (Bool-cases (str_eq k (pin_key p))) [
      | inl y ↦ same-inactive now v w (sym (rw y at e) ∙ g) a
      | inr n ↦ h p w i o (sym (rw n at e) ∙ g)
    ]

inactive-unused :
    (now : Time) (q : Digest → Bool) (p : Pin)
    → active p now ≡ false
    → any q (pin_digests now p) ≡ false
inactive-unused now q p h = rw h refl

in_use-save_pin :
    (now : Time) (v : Pin) (rec : GcRecord) (m : MemoryStore) (q : Digest → Bool)
    → active v now ≡ false
    → ((w : Pin) → get (pin_key v) m.pins ≡ some w → active w now ≡ false)
    → in_use now (append_audit rec (save_pin v m)) q ≡ in_use now m q
unfolding append_audit save_pin
in_use-save_pin now v rec m q a h =
    let same =
      any-put (λ (p : Pin). any q (pin_digests now p)) (pin_key v) v m.pins
        (inactive-unused now q v a) (λ w g. inactive-unused now q w (h w g)) in
    rw same refl

module _ (now : Time) (gen : ℕ) (q : Digest → Bool) where
  pub in_use-sweep_pins :
      (ps : List Pin) (m : MemoryStore)
      → Overdue now ps m.pins
      → in_use now (sweep_pins now gen ps m).1 q ≡ in_use now m q
  unfolding sweep_pins expire append_audit save_pin
  in_use-sweep_pins [] m h = refl
  in_use-sweep_pins (p ∷ ps) m h = elim (Bool-cases (is_overdue now p)) [
    | inl o ↦
        let v = expire now p in
        let rec = sweep_record now gen v in
        let off = expire-inactive now p in
        rw o (
          in_use-sweep_pins ps (append_audit rec (save_pin v m))
            (Overdue-put now (pin_key v) v ps m.pins off (λ x w i. h x w (inr i)))
          ∙ in_use-save_pin now v rec m q off (λ w g. h p w (inl refl) o g))
    | inr n ↦ rw n (in_use-sweep_pins ps m (λ x w i. h x w (inr i)))
  ]

-- The sessions of a list stand under their identifiers, or nothing does.
abbrev pub Listed : List Session → Map String Session → Type 0
Listed ss m = (s : Session) (w : Session) → In s ss → get s.id m ≡ some w → w ≡ s

Listed-delete :
    (k : String) (ss : List Session) (m : Map String Session) → Listed ss m → Listed ss (delete k m)
Listed-delete k ss m h s w i g =
    let e = get-delete k s.id m in
    elim (Bool-cases (str_eq k s.id)) [
      | inl y ↦ absurd (cc (rw y at e, g))
      | inr n ↦ h s w i (sym (rw n at e) ∙ g)
    ]

dead-unused :
    (now : Time) (q : Digest → Bool) (s w : Session)
    → w ≡ s
    → protects now s ≡ false
    → any q (session_digests now w) ≡ false
dead-unused now q s w e h = rw (e, h) refl

in_use-sweep_session_locked :
    (now : Time) (s : Session) (reason : String) (gen : ℕ) (c : Cache) (q : Digest → Bool)
    → Unique c.store.sessions
    → protects now s ≡ false
    → ((w : Session) → get s.id c.store.sessions ≡ some w → w ≡ s)
    → in_use now (sweep_session_locked s reason gen c).store q ≡ in_use now c.store q
unfolding sweep_session_locked append_audit delete_session
in_use-sweep_session_locked now s reason gen c q u d h =
    let same =
      any-delete (λ (x : Session). any q (session_digests now x)) s.id c.store.sessions u
        (λ w g. dead-unused now q s w (h w g) d) in
    rw same refl

module _ (now : Time) (gen : ℕ) (q : Digest → Bool) where
  pub in_use-sweep_sessions :
      (ss : List Session) (c : Cache)
      → Unique c.store.sessions
      → Listed ss c.store.sessions
      → in_use now (sweep_sessions now gen ss c).1.store q ≡ in_use now c.store q
  unfolding sweep_sessions sweep_session_locked append_audit delete_session
  in_use-sweep_sessions [] c u h = refl
  in_use-sweep_sessions (s ∷ ss) c u h = elim (Option-cases (sweep_reason now s s.status)) [
    | inl e ↦ rw (sweep_sessions, e) (in_use-sweep_sessions ss c u (λ x w i. h x w (inr i)))
    | inr (reason, e) ↦
        rw (sweep_sessions, e)
          (in_use-sweep_sessions ss (sweep_session_locked s reason gen c)
              (delete-Unique s.id c.store.sessions u)
              (Listed-delete s.id ss c.store.sessions (λ x w i. h x w (inr i)))
            ∙ in_use-sweep_session_locked now s reason gen c q u (swept-dead now s reason e)
                (λ w g. h s w (inl refl) g))
  ]
