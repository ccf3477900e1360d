-- ===== src/Prelude/Lists.antt =====
-- Lists with native lengths, Boolean quantifiers over them, and the sort that models `sort.Slice`.
use Prim.Native.Nat.{ℕ, suc}
use mathlib.Core.Logic.{◌⊎◌, inl, inr}
use mathlib.Core.Path.{◌≡◌, refl}
use mathlib.Core.Bool.{Bool, false, ◌||◌}
use mathlib.Core.List.{List, [], ◌∷◌}
use native.Mathlib.Omega.{arith}
use package.go_build_cache.Prelude.Tests.{Bool-cases, if◌then◌else◌}

module _ {ℓ} {A : Type ℓ} where
  abbrev pub length : List A → ℕ
  length [] = 0
  length (x ∷ xs) = suc (length xs)

  abbrev pub any : (A → Bool) → List A → Bool
  any p [] = false
  any p (x ∷ xs) = p x || any p xs

  abbrev pub keep : (A → Bool) → List A → List A
  keep p [] = []
  keep p (x ∷ xs) = if p x then x ∷ keep p xs else keep p xs

  -- `sort.Slice` by insertion; its callers compare keys that are distinct, where any sort agrees.
  unfoldable pub insert_by : (A → A → Bool) → A → List A → List A
  insert_by less x [] = x ∷ []
  insert_by less x (y ∷ ys) = if less y x then y ∷ insert_by less x ys else x ∷ y ∷ ys

  unfoldable pub sort_by : (A → A → Bool) → List A → List A
  unfolding insert_by
  sort_by less [] = []
  sort_by less (x ∷ xs) = insert_by less x (sort_by less xs)

module _ {ℓ} {A : Type ℓ} (less : A → A → Bool) (p : A → Bool) where
  any-insert_by : (x : A) (ys : List A) → any p (insert_by less x ys) ≡ (p x || any p ys)
  unfolding insert_by
  any-insert_by x [] = refl
  any-insert_by x (y ∷ ys) = ground (arith, any-insert_by x ys)

  -- Sorting keeps what a list holds.
  pub any-sort_by : (xs : List A) → any p (sort_by less xs) ≡ any p xs
  unfolding sort_by
  any-sort_by [] = refl
  any-sort_by (x ∷ xs) = ground (arith, any-insert_by x (sort_by less xs), any-sort_by xs)

-- No element; at every level.
pub data Empty {ℓ} : Type ℓ where

-- Membership with its position.
abbrev pub In {ℓ} : {A : Type ℓ} → A → List A → Type ℓ
In x [] = Empty
In x (y ∷ ys) = (x ≡ y) ⊎ In x ys

module _ {ℓ} {A : Type ℓ} (less : A → A → Bool) where
  In-swap : (x y z : A) (zs : List A) → (x ≡ z) ⊎ In x (y ∷ zs) → In x (y ∷ z ∷ zs)
  In-swap x y z zs (inl q) = inr (inl q)
  In-swap x y z zs (inr (inl q)) = inl q
  In-swap x y z zs (inr (inr q)) = inr (inr q)

  In-tail : (x z : A) (ys zs : List A) → (In x ys → In x zs) → In x (z ∷ ys) → In x (z ∷ zs)
  In-tail x z ys zs f (inl q) = inl q
  In-tail x z ys zs f (inr q) = inr (f q)

  pub In-insert_by : (x y : A) (ys : List A) → In x (insert_by less y ys) → In x (y ∷ ys)
  unfolding insert_by
  In-insert_by x y [] h = h
  In-insert_by x y (z ∷ zs) h = elim (Bool-cases (less z y)) [
    | inl e ↦
        In-swap x y z zs
          (In-tail x z (insert_by less y zs) (y ∷ zs) (In-insert_by x y zs) (rw e at h))
    | inr e ↦ rw e at h
  ]

  -- Sorting adds nothing.
  pub In-sort_by : (x : A) (xs : List A) → In x (sort_by less xs) → In x xs
  unfolding sort_by
  In-sort_by x [] h = h
  In-sort_by x (y ∷ ys) h =
      In-tail x y (sort_by less ys) ys (In-sort_by x ys) (In-insert_by x y (sort_by less ys) h)
