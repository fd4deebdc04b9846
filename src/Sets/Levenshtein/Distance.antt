-- ===== src/Sets/Levenshtein/Distance.antt =====
-- The distance that the table computes, as a recursion over the two texts read backwards.
pub mod Script
use diggy.Prelude.{
  ◌≤◌, ℕ, zero, suc, ◌+◌, ◌≡◌, refl, sym, ap, ◌∙◌, subst, min, max, List, [], ◌∷◌, length, arith,
}
use diggy.Prelude.Text.{Text}
use diggy.Sets.Levenshtein.{range_from, cost, fill_row, rows_from, last_or, levenshtein}

unfoldable pub dist : Text → Text → ℕ
dist [] q = length q
dist (c ∷ p) [] = suc (length p)
dist (c ∷ p) (d ∷ q) = min (min (dist p (d ∷ q) + 1) (dist (c ∷ p) q + 1)) (dist p q + cost c d)

-- `a` read backwards in front of `p`
abbrev pub onto : Text → Text → Text
onto [] p = p
onto (c ∷ a) p = onto a (c ∷ p)

-- The cells of the row of `p` to the right of the one of `q`.
rest : Text → Text → Text → List ℕ
rest p q [] = []
rest p q (d ∷ b) = dist p (d ∷ q) ∷ rest p (d ∷ q) b

fill_row-eq :
    (c : ℕ) (p q b : Text)
    → fill_row c b (dist p q ∷ rest p q b) (dist (c ∷ p) q) ≡ dist (c ∷ p) q ∷ rest (c ∷ p) q b
unfolding fill_row rest dist
fill_row-eq c p q [] = refl
fill_row-eq c p q (d ∷ b) = ap (λ row. dist (c ∷ p) q ∷ row) (fill_row-eq c p (d ∷ q) b)

first_row : (q b : Text) → range_from (length q) (length b) ≡ dist [] q ∷ rest [] q b
unfolding rest dist
first_row q [] = refl
first_row q (d ∷ b) = ap (λ row. length q ∷ row) (first_row (d ∷ q) b)

pub first_cell : (p : Text) → dist p [] ≡ length p
unfolding dist
first_cell [] = refl
first_cell (c ∷ p) = refl

rows_from-eq :
    (a b p : Text)
    → rows_from a b (length p) (dist p [] ∷ rest p [] b) ≡ dist (onto a p) [] ∷ rest (onto a p) [] b
unfolding rows_from
rows_from-eq [] b p = refl
rows_from-eq (c ∷ a) b p =
    ap (λ n. rows_from a b (suc (length p)) (fill_row c b (dist p [] ∷ rest p [] b) n))
      (sym (first_cell (c ∷ p)))
    ∙ ap (λ row. rows_from a b (suc (length p)) row) (fill_row-eq c p [] b)
    ∙ rows_from-eq a b (c ∷ p)

last_or-rest : (p q b : Text) → last_or (dist p q) (rest p q b) ≡ dist p (onto b q)
unfolding rest
last_or-rest p q [] = refl
last_or-rest p q (d ∷ b) = last_or-rest p (d ∷ q) b

pub levenshtein-eq-dist : (a b : Text) → levenshtein a b ≡ dist (onto a []) (onto b [])
unfolding levenshtein
levenshtein-eq-dist a b =
    ap (λ row. last_or 0 (rows_from a b 0 row)) (first_row [] b)
    ∙ ap (last_or 0) (rows_from-eq a b [])
    ∙ last_or-rest (onto a []) [] b

pub dist_comm : (p q : Text) → dist p q ≡ dist q p
unfolding dist
dist_comm [] [] = refl
dist_comm [] (d ∷ q) = refl
dist_comm (c ∷ p) [] = refl
dist_comm (c ∷ p) (d ∷ q) = ground (arith, dist_comm p (d ∷ q), dist_comm (c ∷ p) q, dist_comm p q)

pub dist-le : (p q : Text) → dist p q ≤ max (length p) (length q)
unfolding dist
dist-le [] q = omega arith
dist-le (c ∷ p) [] = omega arith
dist-le (c ∷ p) (d ∷ q) = ground (arith, dist-le p q)

pub length-onto : (a p : Text) → length (onto a p) ≡ length a + length p
length-onto [] p = omega arith
length-onto (c ∷ a) p = omega (arith, length-onto a (c ∷ p))
