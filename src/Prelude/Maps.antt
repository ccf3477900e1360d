-- ===== src/Prelude/Maps.antt =====
-- Go's maps as association lists with one entry for each key, over any key type with a Boolean test.
use mathlib.Core.Bool.{Bool, true}
use mathlib.Core.List.{List, [], ◌∷◌}
use mathlib.Core.Logic.{◌↔◌, inl, inr}
use mathlib.Core.Option.{Option, none, some}
use mathlib.Core.Path.{◌≡◌, refl}
use native.Mathlib.Omega.{arith}
use Prim.Native.Nat.{ℕ}
use Prim.Native.String.{String}
use text.Mathlib.Text.{◌==◌ as str_eq}
use text.Mathlib.TextEquality.{eq_iff}
use package.go_build_cache.Prelude.Lists.{In}
use package.go_build_cache.Prelude.Tests.{Bool-cases, ◌==◌, ==_iff, if◌then◌else◌}

pub record Eq {ℓ} (A : Type ℓ) : Type ℓ where
  pub beq : A → A → Bool
  pub beq_iff : (a b : A) → (beq a b ≡ true) ↔ (a ≡ b)

instance abbrev pub nat_eq : Eq ℕ
nat_eq = record { beq = ◌==◌; beq_iff = ==_iff }

instance abbrev pub string_eq : Eq String
string_eq = record { beq = str_eq; beq_iff = eq_iff }

abbrev pub Map {ℓ} : Type ℓ → Type ℓ → Type ℓ
Map K V = List (K × V)

module _ {ℓ} {K V : Type ℓ} ⦃e : Eq K⦄ where
  unfoldable pub get : K → Map K V → Option V
  get k [] = none
  get k ((j, v) ∷ m) = if e.beq j k then some v else get k m

  unfoldable pub put : K → V → Map K V → Map K V
  put k v [] = (k, v) ∷ []
  put k v ((j, w) ∷ m) = if e.beq j k then (k, v) ∷ m else (j, w) ∷ put k v m

  unfoldable pub delete : K → Map K V → Map K V
  delete k [] = []
  delete k ((j, w) ∷ m) = let rest = delete k m in if e.beq j k then rest else (j, w) ∷ rest

  pub get-put :
      (k j : K) (v : V) (m : Map K V) → get j (put k v m) ≡ (if e.beq k j then some v else get j m)
  unfolding get put
  get-put k j v [] = refl
  get-put k j v ((i, w) ∷ m) =
      ground (arith, e.beq_iff k j, e.beq_iff i k, e.beq_iff i j, get-put k j v m)

  pub get-delete :
      (k j : K) (m : Map K V) → get j (delete k m) ≡ (if e.beq k j then none else get j m)
  unfolding get delete
  get-delete k j [] = ground arith
  get-delete k j ((i, w) ∷ m) =
      ground (arith, e.beq_iff k j, e.beq_iff i k, e.beq_iff i j, get-delete k j m)

-- The values, in the order of insertion; Go's order is random, and the program sorts.
unfoldable pub values {ℓ} : {K V : Type ℓ} → Map K V → List V
values [] = []
values ((j, v) ∷ m) = v ∷ values m

module _ {ℓ} {K V : Type ℓ} ⦃e : Eq K⦄ where
  -- No key stands twice.
  abbrev pub Unique : Map K V → Type ℓ
  Unique [] = Unit
  Unique ((j, v) ∷ m) = (get j m ≡ none) × Unique m

  pub put-Unique : (k : K) (v : V) (m : Map K V) → Unique m → Unique (put k v m)
  unfolding put get
  put-Unique k v [] u = (refl, tt)
  put-Unique k v ((j, w) ∷ m) u =
      ground (arith, e.beq_iff j k, e.beq_iff k j, get-put k j v m, put-Unique k v m u.1)

  pub delete-Unique : (k : K) (m : Map K V) → Unique m → Unique (delete k m)
  unfolding delete
  delete-Unique k [] u = tt
  delete-Unique k ((j, w) ∷ m) u = ground (arith, get-delete k j m, delete-Unique k m u.1)

  -- A value that is listed stands under a key.
  pub In-values : (v : V) (m : Map K V) → Unique m → In v (values m) → (k : K) × (get k m ≡ some v)
  unfolding values get
  In-values v [] u h = elim h [ ]
  In-values v ((j, w) ∷ m) u (inl q) = (j, rw ((e.beq_iff j j).1 refl, q))
  In-values v ((j, w) ∷ m) u (inr q) =
      let (k, g) = In-values v m u.1 q in
      (
        k,
        elim (Bool-cases (e.beq j k)) [
          | inl same ↦ absurd (cc ((e.beq_iff j k).0 same, u.0, g))
          | inr other ↦ rw other g
        ],
      )

module _ {ℓ} {K V : Type ℓ} ⦃e : Eq K⦄ (key : V → K) where
  -- Each value stands under the key that it determines.
  abbrev pub KeyedBy : Map K V → Type ℓ
  KeyedBy m = (k : K) (v : V) → get k m ≡ some v → k ≡ key v

  pub put-KeyedBy : (v : V) (m : Map K V) → KeyedBy m → KeyedBy (put (key v) v m)
  put-KeyedBy v m h k w g = ground (arith, get-put (key v) k v m, e.beq_iff (key v) k, h k w)

  pub delete-KeyedBy : (j : K) (m : Map K V) → KeyedBy m → KeyedBy (delete j m)
  delete-KeyedBy j m h k w g = ground (arith, get-delete j k m, h k w)
