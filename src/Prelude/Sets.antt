-- ===== src/Prelude/Sets.antt =====
-- Sets of ids as lists without repetition.
use Prim.Native.Nat.{ℕ, ◌≤◌}
use mathlib.Core.Path.{◌≡◌, refl, subst}
use mathlib.Core.Logic.{inl, inr}
use mathlib.Core.Bool.{Bool, true, false}
use mathlib.Core.List.{List, [], ◌∷◌, map}
use mathlib.Core.Option.{Option, none, some}
use native.Mathlib.Omega.{arith}
use diggy.Prelude.Tests.{◌==◌, if◌then◌else◌, Bool-cases}
use diggy.Prelude.Lists.{any, length, filter, filter_map, count}

abbrev pub mem : ℕ → List ℕ → Bool
mem n xs = any (λ x. x == n) xs

-- set(xs), in some order
abbrev pub distinct : List ℕ → List ℕ
distinct [] = []
distinct (x ∷ xs) = let rest = distinct xs in if mem x rest then rest else x ∷ rest

pub mem-distinct : (n : ℕ) (xs : List ℕ) → mem n (distinct xs) ≡ mem n xs
mem-distinct n [] = refl
mem-distinct n (x ∷ xs) = elim (Bool-cases (mem x (distinct xs))) [
  | inl old ↦ rw old (elim (Bool-cases (x == n)) [
    | inl e ↦
        let p : x ≡ n = ground arith in
        rw p (ground (arith, subst (λ k. mem k (distinct xs) ≡ true) p old, mem-distinct n xs))
    | inr e ↦ rw e (mem-distinct n xs)
  ])
  | inr new ↦ rw new (ground (arith, mem-distinct n xs))
]

pub length-pos {ℓ} : {A : Type ℓ} (p : A → Bool) (xs : List A) → any p xs ≡ true → 1 ≤ length xs
length-pos p [] h = ground arith
length-pos p (x ∷ xs) h = omega arith

pub mem-map {ℓ} :
    {A : Type ℓ} (f : A → ℕ) (n : ℕ) (xs : List A) → mem n (map f xs) ≡ any (λ x. f x == n) xs
mem-map f n [] = refl
mem-map f n (x ∷ xs) = ground (arith, mem-map f n xs)

-- Where no element passes the weaker test `p`, none passes `q`.
pub filter-nil {ℓ} :
    {A : Type ℓ} (p q : A → Bool) (xs : List A)
    → ((x : A) → q x ≡ true → p x ≡ true)
    → any p xs ≡ false
    → filter q xs ≡ []
filter-nil p q [] h k = refl
filter-nil p q (x ∷ xs) h k = ground (arith, h x, filter-nil p q xs h)

pub mem-filter_map {ℓ} :
    {A : Type ℓ} (f : A → Option ℕ) (n : ℕ) (xs : List A)
    → mem n (filter_map f xs) ≡ any (λ x. elim (f x) [ none ↦ false | some m ↦ m == n ]) xs
mem-filter_map f n [] = refl
mem-filter_map f n (x ∷ xs) = ground (arith, mem-filter_map f n xs)

pub count-zero {ℓ} : {A : Type ℓ} (p : A → Bool) (xs : List A) → any p xs ≡ false → count p xs ≡ 0
count-zero p [] h = refl
count-zero p (x ∷ xs) h = ground (arith, count-zero p xs)
