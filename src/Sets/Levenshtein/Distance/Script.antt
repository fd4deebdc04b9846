-- ===== src/Sets/Levenshtein/Distance/Script.antt =====
-- Edit scripts, and that the table computes the length of a shortest one.
use diggy.Prelude.{
  ℕ, suc, ◌+◌, ◌≤◌, ◌≡◌, refl, sym, ap, ◌∙◌, subst, min, [], ◌∷◌, arith, ◌==◌, leb, ◌++◌,
  Bool-cases, ◌⊎◌, inl, inr,
}
use diggy.Prelude.Text.{Text}
use diggy.Sets.Levenshtein.{cost, levenshtein}
use diggy.Sets.Levenshtein.Distance.{dist, first_cell, onto, levenshtein-eq-dist, dist_comm}

-- `Script a b n`: n edits of one character each (replace, insert, delete) turn `a` into `b`.
pub data Script : Text → Text → ℕ → Type 0 where
  finish : Script [] [] 0
  keep : {a b : Text} {n : ℕ} (c : ℕ) → Script a b n → Script (c ∷ a) (c ∷ b) n
  replace : {a b : Text} {n : ℕ} (c d : ℕ) → Script a b n → Script (c ∷ a) (d ∷ b) (suc n)
  insert : {a b : Text} {n : ℕ} (d : ℕ) → Script a b n → Script a (d ∷ b) (suc n)
  delete : {a b : Text} {n : ℕ} (c : ℕ) → Script a b n → Script (c ∷ a) b (suc n)

dist-insert : (p q : Text) (d : ℕ) → dist p (d ∷ q) ≤ dist p q + 1
unfolding dist
dist-insert [] q d = omega arith
dist-insert (c ∷ p) q d = ground arith

dist-delete : (p q : Text) (c : ℕ) → dist (c ∷ p) q ≤ dist p q + 1
dist-delete p q c = ground (arith, dist_comm (c ∷ p) q, dist-insert q p c, dist_comm p q)

-- No script is shorter than the distance,
dist-le-script : {p q : Text} {n : ℕ} → Script p q n → dist p q ≤ n
unfolding dist
dist-le-script finish = omega arith
dist-le-script (keep {a = p} {b = q} c s) = ground (arith, dist-le-script s)
dist-le-script (replace {a = p} {b = q} c d s) = ground (arith, dist-le-script s)
dist-le-script (insert {a = p} {b = q} d s) = omega (arith, dist-insert p q d, dist-le-script s)
dist-le-script (delete {a = p} {b = q} c s) = omega (arith, dist-delete p q c, dist-le-script s)

one_of_three : (x y z : ℕ) → (min (min x y) z ≡ x) ⊎ (min (min x y) z ≡ y) ⊎ (min (min x y) z ≡ z)
one_of_three x y z = elim (Bool-cases (leb x y)) [
  | inl e ↦ elim (Bool-cases (leb x z)) [
    | inl k ↦ inl (ground arith)
    | inr k ↦ inr (inr (ground arith))
  ]
  | inr e ↦ elim (Bool-cases (leb y z)) [
    | inl k ↦ inr (inl (ground arith))
    | inr k ↦ inr (inr (ground arith))
  ]
]

-- One script is as short as what is done at the end of both texts.
last_edit : (c d k : ℕ) (p q : Text) → Script p q k → Script (c ∷ p) (d ∷ q) (k + cost c d)
last_edit c d k p q s = elim (Bool-cases (c == d)) [
  | inl e ↦
      let same : c ≡ d = ground arith in
      let free : k ≡ k + cost c d = ground arith in
      subst (λ n. Script (c ∷ p) (d ∷ q) n) free
        (subst (λ x. Script (c ∷ p) (x ∷ q) k) same (keep c s))
  | inr e ↦
      let paid : suc k ≡ k + cost c d = ground arith in
      subst (λ n. Script (c ∷ p) (d ∷ q) n) paid (replace c d s)
]

-- and one is as short.
shortest : (p q : Text) → Script p q (dist p q)
unfolding dist
shortest [] [] = finish
shortest [] (d ∷ q) = insert d (shortest [] q)
shortest (c ∷ p) [] = delete c (subst (λ n. Script p [] n) (first_cell p) (shortest p []))
shortest (c ∷ p) (d ∷ q) =
    let up = dist p (d ∷ q) in
    let left = dist (c ∷ p) q in
    let diagonal = dist p q in
    elim (one_of_three (up + 1) (left + 1) (diagonal + cost c d)) [
      | inl e ↦
          let k : suc up ≡ dist (c ∷ p) (d ∷ q) = omega (arith, e) in
          subst (λ n. Script (c ∷ p) (d ∷ q) n) k (delete c (shortest p (d ∷ q)))
      | inr (inl e) ↦
          let k : suc left ≡ dist (c ∷ p) (d ∷ q) = omega (arith, e) in
          subst (λ n. Script (c ∷ p) (d ∷ q) n) k (insert d (shortest (c ∷ p) q))
      | inr (inr e) ↦
          subst (λ n. Script (c ∷ p) (d ∷ q) n) (sym e) (last_edit c d diagonal p q (shortest p q))
    ]

-- A script can be read from either end of the texts.
backwards :
    {a b p q : Text} {n m : ℕ} → Script a b n → Script p q m → Script (onto a p) (onto b q) (n + m)
backwards {p = p} {q = q} {m = m} finish s =
    let k : m ≡ 0 + m = omega arith in subst (λ n. Script p q n) k s
backwards (keep c r) s = backwards r (keep c s)
backwards {a = a} {b = b} {p = p} {q = q} {m = m} (replace {n = n} c d r) s =
    let k : n + suc m ≡ suc n + m = omega arith in
    subst (λ i. Script (onto a p) (onto b q) i) k (backwards r (replace c d s))
backwards {a = a} {b = b} {p = p} {q = q} {m = m} (insert {n = n} d r) s =
    let k : n + suc m ≡ suc n + m = omega arith in
    subst (λ i. Script (onto a p) (onto b q) i) k (backwards r (insert d s))
backwards {a = a} {b = b} {p = p} {q = q} {m = m} (delete {n = n} c r) s =
    let k : n + suc m ≡ suc n + m = omega arith in
    subst (λ i. Script (onto a p) (onto b q) i) k (backwards r (delete c s))

reversed : (a b : Text) (n : ℕ) → Script a b n → Script (onto a []) (onto b []) n
reversed a b n s =
    let k : n + 0 ≡ n = omega arith in
    subst (λ i. Script (onto a []) (onto b []) i) k (backwards s finish)

onto-onto : (a p q : Text) → onto (onto a p) q ≡ onto p (a ++ q)
onto-onto [] p q = refl
onto-onto (c ∷ a) p q = onto-onto a (c ∷ p) q

append_nil : (a : Text) → a ++ [] ≡ a
append_nil [] = refl
append_nil (c ∷ a) = ap (λ s. c ∷ s) (append_nil a)

twice : (a : Text) → onto (onto a []) [] ≡ a
twice a = onto-onto a [] [] ∙ append_nil a

-- The table computes the edit distance: a script with that many edits turns the one text into the
-- other, and no script does it with fewer.
pub levenshtein-shortest :
    (a b : Text) → Script a b (levenshtein a b) × ((n : ℕ) → Script a b n → levenshtein a b ≤ n)
levenshtein-shortest a b =
    let p = onto a [] in
    let q = onto b [] in
    let e = levenshtein-eq-dist a b in
    (
      subst (λ x. Script x b (levenshtein a b)) (twice a)
          (subst (λ y. Script (onto p []) y (levenshtein a b)) (twice b)
            (reversed p q (levenshtein a b) (subst (λ n. Script p q n) (sym e) (shortest p q)))),
      λ n s. let k = dist-le-script (reversed a b n s) in omega (arith, e, k),
    )
