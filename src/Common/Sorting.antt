-- ===== src/Common/Sorting.antt =====
-- A stable sort by insertion, and what it leaves.
use mathlib.Core.Path.{◌≡◌, refl}
use mathlib.Core.Bool.{Bool, true, false}
use mathlib.Core.Logic.{inl, inr}
use mathlib.Core.List.{List, [], ◌∷◌}
use native.Mathlib.Omega.{arith}
use panoptic.Common.Tests.{if◌then◌else◌, Bool-cases}
use panoptic.Common.Lists.{All, any}

module _ {ℓ} {A : Type ℓ} where
  -- Every element is related to the ones behind it.
  abbrev pub Pairs {κ} : (A → A → Type κ) → List A → Type κ
  Pairs R [] = Unit
  Pairs R (x ∷ xs) = All (R x) xs × Pairs R xs

module _ {ℓ} {A : Type ℓ} (le : A → A → Bool) where
  -- `le x y` says that `x` may stand before `y`.
  abbrev pub insert_by : A → List A → List A
  insert_by x [] = x ∷ []
  insert_by x (y ∷ ys) = if le x y then x ∷ y ∷ ys else y ∷ insert_by x ys

  unfoldable pub sort_by : List A → List A
  sort_by [] = []
  sort_by (x ∷ xs) = insert_by x (sort_by xs)

  pub insert_by-All {κ} :
      (P : A → Type κ) (x : A) (xs : List A) → P x → All P xs → All P (insert_by x xs)
  insert_by-All P x [] p h = (p, tt)
  insert_by-All P x (y ∷ ys) p h = elim (Bool-cases (le x y)) [
    | inl e ↦ rw e (p, h)
    | inr e ↦ rw e (h.0, insert_by-All P x ys p h.1)
  ]

  pub sort_by-All {κ} : (P : A → Type κ) (xs : List A) → All P xs → All P (sort_by xs)
  unfolding sort_by
  sort_by-All P [] h = tt
  sort_by-All P (x ∷ xs) h = insert_by-All P x (sort_by xs) h.0 (sort_by-All P xs h.1)

  insert_by-any :
      (p : A → Bool) (x : A) (xs : List A)
      → any p (insert_by x xs) ≡ (if p x then true else any p xs)
  insert_by-any p x [] = refl
  insert_by-any p x (y ∷ ys) = ground (arith, insert_by-any p x ys)

  pub sort_by-any : (p : A → Bool) (xs : List A) → any p (sort_by xs) ≡ any p xs
  unfolding sort_by
  sort_by-any p [] = refl
  sort_by-any p (x ∷ xs) = ground (arith, insert_by-any p x (sort_by xs), sort_by-any p xs)

  insert_by-Pairs {κ} :
      (R : A → A → Type κ) (x : A) (xs : List A)
      → ((a b : A) → R a b → R b a)
      → All (R x) xs
      → Pairs R xs
      → Pairs R (insert_by x xs)
  insert_by-Pairs R x [] symm h p = (tt, tt)
  insert_by-Pairs R x (y ∷ ys) symm h p = elim (Bool-cases (le x y)) [
    | inl e ↦ rw e (h, p)
    | inr e ↦
        rw e (insert_by-All (R y) x ys (symm x y h.0) p.0, insert_by-Pairs R x ys symm h.1 p.1)
  ]

  -- A symmetric relation between all elements is kept.
  pub sort_by-Pairs {κ} :
      (R : A → A → Type κ) (xs : List A)
      → ((a b : A) → R a b → R b a)
      → Pairs R xs
      → Pairs R (sort_by xs)
  unfolding sort_by
  sort_by-Pairs R [] symm p = tt
  sort_by-Pairs R (x ∷ xs) symm p =
      insert_by-Pairs R x (sort_by xs) symm (sort_by-All (R x) xs p.0) (sort_by-Pairs R xs symm p.1)

  -- Where the order is total and transitive, the result is in order.
  module _ (total : (a b : A) → le a b ≡ false → le b a ≡ true)
      (trans : (a b c : A) → le a b ≡ true → le b c ≡ true → le a c ≡ true) where
    abbrev pub InOrder : List A → Type 0
    InOrder = Pairs (λ a b. le a b ≡ true)

    weaken :
        (x y : A) (ys : List A)
        → le x y ≡ true
        → All (λ b. le y b ≡ true) ys
        → All (λ b. le x b ≡ true) ys
    weaken x y [] h all = tt
    weaken x y (z ∷ ys) h all = (trans x y z h all.0, weaken x y ys h all.1)

    insert_by-InOrder : (x : A) (xs : List A) → InOrder xs → InOrder (insert_by x xs)
    insert_by-InOrder x [] h = (tt, tt)
    insert_by-InOrder x (y ∷ ys) h = elim (Bool-cases (le x y)) [
      | inl e ↦ rw e ((e, weaken x y ys e h.0), h)
      | inr e ↦
          rw e
            (insert_by-All (λ b. le y b ≡ true) x ys (total x y e) h.0, insert_by-InOrder x ys h.1)
    ]

    pub sort_by-InOrder : (xs : List A) → InOrder (sort_by xs)
    unfolding sort_by
    sort_by-InOrder [] = tt
    sort_by-InOrder (x ∷ xs) = insert_by-InOrder x (sort_by xs) (sort_by-InOrder xs)
