-- ===== src/Cohort/Service/Pages.antt =====
-- The pages of the listing of the cohort.
use diggy.Prelude.{
  ℕ, zero, suc, ◌+◌, ◌-◌, ◌*◌, ◌≤◌, ◌≡◌, refl, sym, ap, subst, ◌∙◌, true, false, Option, List, [],
  ◌∷◌, ◌++◌, arith, length, take, drop, filter, length-take,
}
use diggy.Prelude.Sort.{sort_by, IsSorted, sort_by-IsSorted, length-sort_by}
use diggy.Cohort.Rows.{ArtistCohort}
use diggy.Cohort.Service.{OverrideFilter, listed, list_order, list_cohort}

take_nil : {A : Type 0} (n : ℕ) → take {A = A} n [] ≡ []
take_nil zero = refl
take_nil (suc n) = refl

take_add : {A : Type 0} (m n : ℕ) (xs : List A) → take (m + n) xs ≡ take m xs ++ take n (drop m xs)
take_add zero n xs = ap (λ k. take k xs) (omega arith)
take_add (suc m) n [] = take_nil (suc m + n) ∙ sym (take_nil n)
take_add (suc m) n (x ∷ xs) =
    let p : suc m + n ≡ suc (m + n) = omega arith in
    ap (λ k. take k (x ∷ xs)) p ∙ ap (λ ys. x ∷ ys) (take_add m n xs)

take_all : {A : Type 0} (n : ℕ) (xs : List A) → length xs ≤ n → take n xs ≡ xs
take_all zero [] h = refl
take_all zero (x ∷ xs) h = absurd (omega arith)
take_all (suc n) [] h = refl
take_all (suc n) (x ∷ xs) h = ap (λ ys. x ∷ ys) (take_all n xs (omega arith))

list_order_total : (a b : ArtistCohort) → list_order a b ≡ false → list_order b a ≡ true
unfolding list_order
list_order_total a b h = ground arith

list_order_trans :
    (a b c : ArtistCohort) → list_order a b ≡ true → list_order b c ≡ true → list_order a c ≡ true
unfolding list_order
list_order_trans a b c h k = ground arith

-- the items of the pages 1, ..., n
abbrev pub first_pages :
    Option ℕ → Option OverrideFilter → ℕ → List ArtistCohort → ℕ → List ArtistCohort
first_pages tier override size rows zero = []
first_pages tier override size rows (suc n) =
    first_pages tier override size rows n ++ (list_cohort tier override (suc n) size rows).items

last : (n : ℕ) → suc n - 1 ≡ n
last n = omega arith

first_pages-eq-take :
    (tier : Option ℕ) (override : Option OverrideFilter) (size : ℕ) (rows : List ArtistCohort)
    (n : ℕ)
    → first_pages tier override size rows n
      ≡ take (n * size) (sort_by list_order (filter (listed tier override) rows))
unfolding list_cohort
first_pages-eq-take tier override size rows zero =
    let found = sort_by list_order (filter (listed tier override) rows) in
    let none_yet : 0 ≡ 0 * size = omega arith in ap (λ k. take k found) none_yet
first_pages-eq-take tier override size rows (suc n) =
    let found = sort_by list_order (filter (listed tier override) rows) in
    ap (λ k. first_pages tier override size rows n ++ take size (drop (k * size) found)) (last n)
    ∙ ap (λ ys. ys ++ take size (drop (n * size) found))
        (first_pages-eq-take tier override size rows n)
    ∙ sym (take_add (n * size) size found)
    ∙ ap (λ k. take k found) (omega arith)

-- Paging loses no row and shows none twice: once the pages hold as many rows as the total, they
-- are, one after the other, the rows that the filters select, in the order of tier, last check and
-- id; and no page holds more rows than its size.
pub list_cohort-pages :
    (tier : Option ℕ) (override : Option OverrideFilter) (size page n : ℕ)
    (rows : List ArtistCohort)
    → (list_cohort tier override page size rows).total ≤ n * size
    → (first_pages tier override size rows n
        ≡ sort_by list_order (filter (listed tier override) rows))
      × IsSorted list_order (first_pages tier override size rows n)
      × (length (list_cohort tier override page size rows).items ≤ size)
unfolding list_cohort
list_cohort-pages tier override size page n rows h =
    let found = filter (listed tier override) rows in
    let all : first_pages tier override size rows n ≡ sort_by list_order found =
      first_pages-eq-take tier override size rows n
      ∙ take_all (n * size) (sort_by list_order found)
          (omega (arith, length-sort_by list_order found)) in
    (
      all,
      subst (IsSorted list_order) (sym all)
          (sort_by-IsSorted list_order list_order_total list_order_trans found),
      omega (arith, length-take size (drop ((page - 1) * size) (sort_by list_order found))),
    )
