-- ===== src/Prelude/Sorting.antt =====
-- What a sort keeps and what it brings about.
use Prim.Native.Nat.{ℕ, ◌+◌, ◌≤◌}
use mathlib.Core.Logic.{inl, inr}
use mathlib.Core.Path.{◌≡◌, refl, ◌∙◌}
use mathlib.Core.Bool.{Bool, true, false}
use mathlib.Core.List.{List, [], ◌∷◌}
use native.Mathlib.Omega.{arith}
use package.go_build_cache.Prelude.Tests.{Bool-cases}
use package.go_build_cache.Prelude.Lists.{insert_by, sort_by, In, keep, In-insert_by}

module _ {ℓ} {A : Type ℓ} (f : A → ℕ) where
  abbrev pub sum_by : List A → ℕ
  sum_by [] = 0
  sum_by (x ∷ xs) = f x + sum_by xs

  -- A measure that does not fall along a list.
  abbrev pub Ascending : List A → Type ℓ
  Ascending [] = Unit
  Ascending (x ∷ xs) = ((y : A) → In y xs → f x ≤ f y) × Ascending xs

module _ {ℓ} {A : Type ℓ} (less : A → A → Bool) (f : A → ℕ) where
  sum_by-insert_by : (x : A) (xs : List A) → sum_by f (insert_by less x xs) ≡ f x + sum_by f xs
  unfolding insert_by
  sum_by-insert_by x [] = refl
  sum_by-insert_by x (y ∷ ys) = elim (Bool-cases (less y x)) [
    | inl e ↦ rw (e, sum_by-insert_by x ys) (omega arith)
    | inr e ↦ rw e refl
  ]

  pub sum_by-sort_by : (xs : List A) → sum_by f (sort_by less xs) ≡ sum_by f xs
  unfolding sort_by
  sum_by-sort_by [] = refl
  sum_by-sort_by (x ∷ xs) = sum_by-insert_by x (sort_by less xs) ∙ rw (sum_by-sort_by xs) refl

module _ {ℓ} {A : Type ℓ} (less : A → A → Bool) where
  insert_by-In : (x y : A) (ys : List A) → In x (y ∷ ys) → In x (insert_by less y ys)
  unfolding insert_by
  insert_by-In x y [] h = h
  insert_by-In x y (z ∷ zs) h = elim (Bool-cases (less z y)) [
    | inl e ↦ rw e (elim h [
      | inl q ↦ inr (insert_by-In x y zs (inl q))
      | inr (inl q) ↦ inl q
      | inr (inr q) ↦ inr (insert_by-In x y zs (inr q))
    ])
    | inr e ↦ rw e h
  ]

  -- Sorting loses nothing.
  pub sort_by-In : (x : A) (xs : List A) → In x xs → In x (sort_by less xs)
  unfolding sort_by
  sort_by-In x [] h = elim h [ ]
  sort_by-In x (y ∷ ys) (inl q) = insert_by-In x y (sort_by less ys) (inl q)
  sort_by-In x (y ∷ ys) (inr q) = insert_by-In x y (sort_by less ys) (inr (sort_by-In x ys q))

module _ {ℓ} {A : Type ℓ} (less : A → A → Bool) (f : A → ℕ)
    (rises : (x y : A) → less x y ≡ true → f x ≤ f y)
    (falls : (x y : A) → less x y ≡ false → f y ≤ f x) where
  insert_by-Ascending : (x : A) (xs : List A) → Ascending f xs → Ascending f (insert_by less x xs)
  unfolding insert_by
  insert_by-Ascending x [] a = (λ y h. elim h [ ], tt)
  insert_by-Ascending x (y ∷ ys) a = elim (Bool-cases (less y x)) [
    | inl e ↦ rw e (
      λ z h. elim (In-insert_by less z x ys h) [ inl q ↦ rw q (rises y x e) | inr i ↦ a.0 z i ],
      insert_by-Ascending x ys a.1,
    )
    | inr e ↦ rw e (
      λ z h. elim h [
        | inl q ↦ rw q (falls y x e)
        | inr i ↦ let p = falls y x e in let q = a.0 z i in omega arith
      ],
      a,
    )
  ]

  -- A sort by a test that follows a measure puts the measure in order.
  pub sort_by-Ascending : (xs : List A) → Ascending f (sort_by less xs)
  unfolding sort_by
  sort_by-Ascending [] = tt
  sort_by-Ascending (x ∷ xs) = insert_by-Ascending x (sort_by less xs) (sort_by-Ascending xs)

module _ {ℓ} {A : Type ℓ} (p : A → Bool) where
  -- What is kept was there and passes the test, and nothing else is lost.
  pub In-keep : (x : A) (xs : List A) → In x (keep p xs) → In x xs × (p x ≡ true)
  In-keep x [] h = elim h [ ]
  In-keep x (y ∷ ys) h = elim (Bool-cases (p y)) [
    | inl e ↦ elim (rw e at h) [
      | inl q ↦ (inl q, rw q e)
      | inr i ↦ (inr (In-keep x ys i).0, (In-keep x ys i).1)
    ]
    | inr e ↦ let r = In-keep x ys (rw e at h) in (inr r.0, r.1)
  ]

  pub keep-In : (x : A) (xs : List A) → In x xs → p x ≡ true → In x (keep p xs)
  keep-In x [] h e = elim h [ ]
  keep-In x (y ∷ ys) (inl q) e = rw (← q, e) (inl refl)
  keep-In x (y ∷ ys) (inr i) e = elim (Bool-cases (p y)) [
    | inl t ↦ rw t (inr (keep-In x ys i e))
    | inr t ↦ rw t (keep-In x ys i e)
  ]
