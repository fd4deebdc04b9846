-- ===== src/Prelude/Members.antt =====
-- Membership in a list, as evidence of where the element stands, through the functions on lists.
use Prim.Native.Nat.{◌≤◌}
use mathlib.Core.Path.{◌≡◌, refl, ap, subst}
use mathlib.Core.Logic.{inl, inr}
use mathlib.Core.Bool.{Bool, true}
use mathlib.Core.List.{List, [], ◌∷◌, ◌++◌, Memᴰ, map}
use native.Mathlib.Omega.{arith}
use diggy.Prelude.Tests.{Bool-cases}
use diggy.Prelude.Lists.{count}
use diggy.Prelude.Sort.{insert_by, sort_by}

module _ {ℓ} {A : Type ℓ} where
  pub Mem-left : (x : A) (xs ys : List A) → Memᴰ x xs → Memᴰ x (xs ++ ys)
  Mem-left x [] ys m = elim m [ ]
  Mem-left x (y ∷ xs) ys (Memᴰ.head p) = Memᴰ.head p
  Mem-left x (y ∷ xs) ys (Memᴰ.tail m) = Memᴰ.tail (Mem-left x xs ys m)

  pub Mem-right : (x : A) (xs ys : List A) → Memᴰ x ys → Memᴰ x (xs ++ ys)
  Mem-right x [] ys m = m
  Mem-right x (y ∷ xs) ys m = Memᴰ.tail (Mem-right x xs ys m)

  Mem-insert_here : (before : A → A → Bool) (x : A) (xs : List A) → Memᴰ x (insert_by before x xs)
  Mem-insert_here before x [] = Memᴰ.head refl
  Mem-insert_here before x (y ∷ ys) = elim (Bool-cases (before x y)) [
    | inl e ↦ rw e (Memᴰ.head refl)
    | inr e ↦ rw e (Memᴰ.tail (Mem-insert_here before x ys))
  ]

  Mem-insert_by :
      (before : A → A → Bool) (z x : A) (xs : List A) → Memᴰ z xs → Memᴰ z (insert_by before x xs)
  Mem-insert_by before z x [] m = elim m [ ]
  Mem-insert_by before z x (y ∷ ys) (Memᴰ.head p) = elim (Bool-cases (before x y)) [
    | inl e ↦ rw e (Memᴰ.tail (Memᴰ.head p))
    | inr e ↦ rw e (Memᴰ.head p)
  ]
  Mem-insert_by before z x (y ∷ ys) (Memᴰ.tail m) = elim (Bool-cases (before x y)) [
    | inl e ↦ rw e (Memᴰ.tail (Memᴰ.tail m))
    | inr e ↦ rw e (Memᴰ.tail (Mem-insert_by before z x ys m))
  ]

  pub Mem-sort_by :
      (before : A → A → Bool) (z : A) (xs : List A) → Memᴰ z xs → Memᴰ z (sort_by before xs)
  Mem-sort_by before z [] m = elim m [ ]
  Mem-sort_by before z (x ∷ xs) (Memᴰ.head p) =
      subst (λ y. Memᴰ z (insert_by before y (sort_by before xs))) p
        (Mem-insert_here before z (sort_by before xs))
  Mem-sort_by before z (x ∷ xs) (Memᴰ.tail m) =
      Mem-insert_by before z x (sort_by before xs) (Mem-sort_by before z xs m)

  pub count-Mem : (p : A → Bool) (z : A) (xs : List A) → Memᴰ z xs → p z ≡ true → 1 ≤ count p xs
  count-Mem p z [] m h = elim m [ ]
  count-Mem p z (x ∷ xs) (Memᴰ.head e) h =
      let here : p x ≡ true = subst (λ y. p y ≡ true) e h in ground (arith, here)
  count-Mem p z (x ∷ xs) (Memᴰ.tail m) h = ground (arith, count-Mem p z xs m h)

  pub Mem-map {κ} :
      {B : Type κ} (f : A → B) (x : A) (xs : List A) → Memᴰ x xs → Memᴰ (f x) (map f xs)
  Mem-map f x [] m = elim m [ ]
  Mem-map f x (y ∷ xs) (Memᴰ.head p) = Memᴰ.head (ap f p)
  Mem-map f x (y ∷ xs) (Memᴰ.tail m) = Memᴰ.tail (Mem-map f x xs m)
