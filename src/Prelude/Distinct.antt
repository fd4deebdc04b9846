-- ===== src/Prelude/Distinct.antt =====
-- Python sets of elements that a Boolean test compares, as lists without repetition in the order of
-- first occurrence, and the size of an intersection.
use Prim.Native.Nat.{ℕ, ◌+◌, ◌≤◌, min}
use mathlib.Core.Path.{◌≡◌, refl, sym, ◌∙◌, subst}
use mathlib.Core.Logic.{◌↔◌, inl, inr}
use mathlib.Core.Bool.{Bool, true, false}
use mathlib.Core.List.{List, [], ◌∷◌}
use native.Mathlib.Omega.{arith}
use diggy.Prelude.Tests.{if◌then◌else◌, Bool-cases}
use diggy.Prelude.Lists.{length, filter, any, count, length-filter, count-le}

module _ {ℓ} {A : Type ℓ} (eq : A → A → Bool) where
  abbrev pub has : A → List A → Bool
  has x xs = any (λ y. eq y x) xs

  -- dict.fromkeys(xs), from what was seen so far
  abbrev pub unseen : List A → List A → List A
  unseen seen [] = []
  unseen seen (x ∷ xs) =
      let rest = unseen seen xs in
      let more = unseen (x ∷ seen) xs in if has x seen then rest else x ∷ more

  abbrev pub first_seen : List A → List A
  first_seen xs = unseen [] xs

  -- xs & ys
  abbrev pub common : List A → List A → List A
  common xs ys = filter (λ x. has x ys) xs

  abbrev pub HasNoRepeats : List A → Type 0
  HasNoRepeats [] = Unit
  HasNoRepeats (x ∷ xs) = (has x xs ≡ false) × HasNoRepeats xs

module _ {ℓ} {A : Type ℓ} (eq : A → A → Bool) (eq_iff : (x y : A) → (eq x y ≡ true) ↔ (x ≡ y)) where
  eq_comm : (x y : A) → eq x y ≡ eq y x
  eq_comm x y = elim (Bool-cases (eq x y)) [
    | inl e ↦ e ∙ sym ((eq_iff y x).1 (sym ((eq_iff x y).0 e)))
    | inr e ↦ elim (Bool-cases (eq y x)) [
      | inl k ↦ (eq_iff x y).1 (sym ((eq_iff y x).0 k)) ∙ sym k
      | inr k ↦ e ∙ sym k
    ]
  ]

  unseen-fresh :
      (x : A) (seen xs : List A) → has eq x seen ≡ true → has eq x (unseen eq seen xs) ≡ false
  unseen-fresh x seen [] h = refl
  unseen-fresh x seen (y ∷ ys) h = elim (Bool-cases (has eq y seen)) [
    | inl e ↦ rw e (unseen-fresh x seen ys h)
    | inr e ↦ rw e (elim (Bool-cases (eq y x)) [
      | inl same ↦
          let p : y ≡ x = (eq_iff y x).0 same in
          let k : has eq x seen ≡ false = subst (λ z. has eq z seen ≡ false) p e in
          absurd (ground arith)
      | inr other ↦
          let k : has eq x (y ∷ seen) ≡ true = ground arith in
          rw other (unseen-fresh x (y ∷ seen) ys k)
    ])
  ]

  pub first_seen-HasNoRepeats : (seen xs : List A) → HasNoRepeats eq (unseen eq seen xs)
  first_seen-HasNoRepeats seen [] = tt
  first_seen-HasNoRepeats seen (x ∷ xs) = elim (Bool-cases (has eq x seen)) [
    | inl e ↦ rw e (first_seen-HasNoRepeats seen xs)
    | inr e ↦ rw e (
      unseen-fresh x (x ∷ seen) xs (rw ((eq_iff x x).1 refl) refl),
      first_seen-HasNoRepeats (x ∷ seen) xs,
    )
  ]

  -- in a list without repetition an element stands once or not at all
  count-has :
      (x : A) (ys : List A)
      → HasNoRepeats eq ys
      → count (λ y. eq y x) ys ≡ (if has eq x ys then 1 else 0)
  count-has x [] u = refl
  count-has x (y ∷ ys) (fresh, u) = elim (Bool-cases (eq y x)) [
    | inl e ↦
        let p : y ≡ x = (eq_iff y x).0 e in
        let k : has eq x ys ≡ false = subst (λ z. has eq z ys ≡ false) p fresh in
        ground (arith, count-has x ys u)
    | inr e ↦ ground (arith, count-has x ys u)
  ]

  -- the pairs of equal elements, counted along the first list
  abbrev pairs : List A → List A → ℕ
  pairs [] ys = 0
  pairs (x ∷ xs) ys = count (λ y. eq y x) ys + pairs xs ys

  pairs_nil : (xs : List A) → pairs xs [] ≡ 0
  pairs_nil [] = refl
  pairs_nil (x ∷ xs) = omega (arith, pairs_nil xs)

  pairs_cons : (y : A) (ys xs : List A) → pairs xs (y ∷ ys) ≡ count (λ x. eq x y) xs + pairs xs ys
  pairs_cons y ys [] = omega arith
  pairs_cons y ys (x ∷ xs) = ground (arith, pairs_cons y ys xs, eq_comm x y)

  pairs_comm : (xs ys : List A) → pairs xs ys ≡ pairs ys xs
  pairs_comm [] ys = sym (pairs_nil ys)
  pairs_comm (x ∷ xs) ys = omega (arith, pairs_comm xs ys, pairs_cons x xs ys)

  length-common : (xs ys : List A) → HasNoRepeats eq ys → length (common eq xs ys) ≡ pairs xs ys
  length-common [] ys u = refl
  length-common (x ∷ xs) ys u = ground (arith, count-has x ys u, length-common xs ys u)

  -- Of two sets, the first has as many elements in the second as the second in the first.
  pub length-common_comm :
      (xs ys : List A)
      → HasNoRepeats eq xs
      → HasNoRepeats eq ys
      → length (common eq xs ys) ≡ length (common eq ys xs)
  length-common_comm xs ys u v =
      length-common xs ys v ∙ pairs_comm xs ys ∙ sym (length-common ys xs u)

  length-common_left : (xs ys : List A) → length (common eq xs ys) ≤ length xs
  length-common_left xs ys =
      omega (arith, length-filter (λ x. has eq x ys) xs, count-le (λ x. has eq x ys) xs)

  pub length-common-le :
      (xs ys : List A)
      → HasNoRepeats eq xs
      → HasNoRepeats eq ys
      → length (common eq xs ys) ≤ min (length xs) (length ys)
  length-common-le xs ys u v =
      omega
        (arith, length-common_left xs ys, length-common_left ys xs, length-common_comm xs ys u v)

  length-unseen : (seen xs : List A) → length (unseen eq seen xs) ≤ length xs
  length-unseen seen [] = omega arith
  length-unseen seen (x ∷ xs) = ground (arith, length-unseen seen xs, length-unseen (x ∷ seen) xs)

  pub length-first_seen : (xs : List A) → length (first_seen eq xs) ≤ length xs
  length-first_seen xs = length-unseen [] xs
