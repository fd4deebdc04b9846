-- ===== src/Prelude/Sort.antt =====
-- Sorting by a Boolean order, as `sorted` and ORDER BY do: an insertion sort, stable, with the
-- lemmas that say what a sorted list and its first rows hold.
use Prim.Native.Nat.{ℕ, zero, suc, ◌+◌}
use mathlib.Core.Path.{◌≡◌, refl}
use mathlib.Core.Logic.{inl, inr}
use mathlib.Core.Bool.{Bool, true, false}
use mathlib.Core.List.{List, [], ◌∷◌}
use native.Mathlib.Omega.{arith}
use diggy.Prelude.Tests.{if◌then◌else◌, Bool-cases}
use diggy.Prelude.Lists.{count, any, take, drop, All, All-imp, All-drop, length}

module _ {ℓ} {A : Type ℓ} (before : A → A → Bool) where
  -- `x` goes in front of the first element that it is `before`
  abbrev pub insert_by : A → List A → List A
  insert_by x [] = x ∷ []
  insert_by x (y ∷ ys) = let rest = insert_by x ys in if before x y then x ∷ y ∷ ys else y ∷ rest

  abbrev pub sort_by : List A → List A
  sort_by [] = []
  sort_by (x ∷ xs) = insert_by x (sort_by xs)

  abbrev pub IsSorted : List A → Type 0
  IsSorted [] = Unit
  IsSorted (x ∷ xs) = All (λ y. before x y ≡ true) xs × IsSorted xs

module _ {ℓ} {A : Type ℓ} (before : A → A → Bool) where
  pub count-insert_by :
      (p : A → Bool) (x : A) (xs : List A) → count p (insert_by before x xs) ≡ count p (x ∷ xs)
  count-insert_by p x [] = refl
  count-insert_by p x (y ∷ ys) = ground (arith, count-insert_by p x ys)

  -- A sorted list holds what the list holds.
  pub count-sort_by : (p : A → Bool) (xs : List A) → count p (sort_by before xs) ≡ count p xs
  count-sort_by p [] = refl
  count-sort_by p (x ∷ xs) =
      omega (arith, count-insert_by p x (sort_by before xs), count-sort_by p xs)

  any-insert_by :
      (p : A → Bool) (x : A) (xs : List A) → any p (insert_by before x xs) ≡ any p (x ∷ xs)
  any-insert_by p x [] = refl
  any-insert_by p x (y ∷ ys) = ground (arith, any-insert_by p x ys)

  pub any-sort_by : (p : A → Bool) (xs : List A) → any p (sort_by before xs) ≡ any p xs
  any-sort_by p [] = refl
  any-sort_by p (x ∷ xs) = ground (arith, any-insert_by p x (sort_by before xs), any-sort_by p xs)

  length-insert_by : (x : A) (xs : List A) → length (insert_by before x xs) ≡ suc (length xs)
  length-insert_by x [] = refl
  length-insert_by x (y ∷ ys) = ground (arith, length-insert_by x ys)

  pub length-sort_by : (xs : List A) → length (sort_by before xs) ≡ length xs
  length-sort_by [] = refl
  length-sort_by (x ∷ xs) = omega (arith, length-insert_by x (sort_by before xs), length-sort_by xs)

  pub All-insert_by {κ} :
      (P : A → Type κ) (x : A) (xs : List A) → P x → All P xs → All P (insert_by before x xs)
  All-insert_by P x [] h hs = (h, tt)
  All-insert_by P x (y ∷ ys) h (k, hs) = elim (Bool-cases (before x y)) [
    | inl e ↦ rw e (h, (k, hs))
    | inr e ↦ rw e (k, All-insert_by P x ys h hs)
  ]

  pub All-sort_by {κ} : (P : A → Type κ) (xs : List A) → All P xs → All P (sort_by before xs)
  All-sort_by P [] h = tt
  All-sort_by P (x ∷ xs) (h, hs) = All-insert_by P x (sort_by before xs) h (All-sort_by P xs hs)

  module _ (total : (x y : A) → before x y ≡ false → before y x ≡ true)
      (trans : (x y z : A) → before x y ≡ true → before y z ≡ true → before x z ≡ true) where
    insert_by-IsSorted :
        (x : A) (xs : List A) → IsSorted before xs → IsSorted before (insert_by before x xs)
    insert_by-IsSorted x [] h = (tt, tt)
    insert_by-IsSorted x (y ∷ ys) (low, h) = elim (Bool-cases (before x y)) [
      | inl e ↦ rw e ((e, All-imp _ _ ys (λ z k. trans x y z e k) low), (low, h))
      | inr e ↦
          rw e (
            All-insert_by (λ z. before y z ≡ true) x ys (total x y e) low,
            insert_by-IsSorted x ys h,
          )
    ]

    pub sort_by-IsSorted : (xs : List A) → IsSorted before (sort_by before xs)
    sort_by-IsSorted [] = tt
    sort_by-IsSorted (x ∷ xs) = insert_by-IsSorted x (sort_by before xs) (sort_by-IsSorted xs)

  -- What is taken off the front of a sorted list comes before what is left.
  pub take-before-drop :
      (n : ℕ) (xs : List A)
      → IsSorted before xs
      → All (λ x. All (λ y. before x y ≡ true) (drop n xs)) (take n xs)
  take-before-drop zero xs h = tt
  take-before-drop (suc n) [] h = tt
  take-before-drop (suc n) (x ∷ xs) (low, h) =
      (All-drop (λ y. before x y ≡ true) n xs low, take-before-drop n xs h)

module _ {ℓ} {A : Type ℓ} where
  pub count-take-drop :
      (p : A → Bool) (n : ℕ) (xs : List A) → count p (take n xs) + count p (drop n xs) ≡ count p xs
  count-take-drop p zero xs = omega arith
  count-take-drop p (suc n) [] = omega arith
  count-take-drop p (suc n) (x ∷ xs) = omega (arith, count-take-drop p n xs)
