-- ===== src/Twins/Choice/Target.antt =====
-- The target of a choice is one of the candidates, and one of those the choice is made between.
use diggy.Prelude.{
  ◌≡◌, ap, subst, Bool, false, none, some, List, [], ◌∷◌, arith, ◌==◌, any, if◌then◌else◌, get_or,
  filter, All, All-filter, All-any, Bool-cases, inl, inr,
}
use diggy.Families.Rows.{DjSet}
use diggy.Twins.Choice.{
  Evaluated, Choice, is_youtube, rank, attaches, reviews, lower_id, closer, lowest_id, attach_to,
  of_best_rank, several_families, ambiguous_choice, contend, review_of, by_video, by_date,
  contested_of, choose,
}
use diggy.Twins.Choice.OneFamily.{All-least, All-of_best_rank, attach_to-target, or_else_cases}

-- what no contested candidate does the target does not
abbrev pub Contests : Choice → Type 0
Contests c = (q : Evaluated → Bool) → any q c.contested ≡ false → q c.target ≡ false

-- `P` holds of the target, which is a contested candidate
pub record Aims {ℓ} (P : Evaluated → Type ℓ) (c : Choice) : Type ℓ where
  pub target : P c.target
  pub contested : Contests c

module _ {ℓ} (P : Evaluated → Type ℓ) where
  attach_to-Aims : (es : List Evaluated) (c : Choice) → All P es → attach_to es ≡ some c → Aims P c
  attach_to-Aims [] c h e = ground arith
  attach_to-Aims (x ∷ es) c h e = record {
    target = attach_to-target P (x ∷ es) c h e;
    contested = subst Contests (ap (λ o. get_or o c) e) (λ q k. ground arith);
  }

  review_of-Aims : (es : List Evaluated) (c : Choice) → All P es → review_of es ≡ some c → Aims P c
  unfolding lowest_id
  review_of-Aims [] c h e = ground arith
  review_of-Aims (x ∷ es) c (h, hs) e = record {
    target = subst P (ap (λ o. (get_or o c).target) e) (All-least P lower_id x es h hs);
    contested = subst Contests (ap (λ o. get_or o c) e) (λ q k. ground arith);
  }

  ambiguous_choice-Aims :
      (row : DjSet) (es : List Evaluated) (c : Choice)
      → All P es
      → ambiguous_choice row es ≡ some c
      → Aims P c
  ambiguous_choice-Aims row [] c h e = ground arith
  ambiguous_choice-Aims row (x ∷ es) c (h, hs) e = record {
    target = subst P (ap (λ o. (get_or o c).target) e) (All-least P (closer row) x es h hs);
    contested = subst Contests (ap (λ o. get_or o c) e) (λ q k.
        let a = All-any q (x ∷ es) k in All-least (λ y. q y ≡ false) (closer row) x es a.0 a.1);
  }

  contend-Aims :
      (row : DjSet) (es : List Evaluated) (c : Choice)
      → All P es
      → contend row es ≡ some c
      → Aims P c
  unfolding contend
  contend-Aims row es c h e = elim (Bool-cases (several_families es)) [
    | inl s ↦ ambiguous_choice-Aims row es c h (ground (arith, s, e))
    | inr s ↦ attach_to-Aims (of_best_rank es) c (All-of_best_rank P es h) (ground (arith, s, e))
  ]

  by_date-Aims :
      (row : DjSet) (es : List Evaluated) (c : Choice)
      → All P es
      → (if is_youtube row then attach_to (by_date es) else none) ≡ some c
      → Aims P c
  by_date-Aims row es c h e = elim (Bool-cases (is_youtube row)) [
    | inl y ↦
        attach_to-Aims (by_date es) c (All-filter P (λ x. rank x == 1) es h) (ground (arith, y, e))
    | inr n ↦ absurd (ground (arith, n, e))
  ]

  All-contested_of : (row : DjSet) (es : List Evaluated) → All P es → All P (contested_of row es)
  unfolding contested_of
  All-contested_of row es h = elim (Bool-cases (is_youtube row)) [
    | inl y ↦ rw y (All-filter P (λ e. rank e == 2) es h)
    | inr n ↦ rw n h
  ]

  pub choose-Aims :
      (row : DjSet) (evaluated : List Evaluated) (c : Choice)
      → All P evaluated
      → choose row evaluated ≡ some c
      → Aims P c
  unfolding choose
  choose-Aims row evaluated c h e =
      let found = filter attaches evaluated in
      let of_found = All-filter P attaches evaluated h in
      elim (or_else_cases (attach_to (by_video found)) _ c e) [
        | inl k ↦
            attach_to-Aims (by_video found) c (All-filter P (λ x. rank x == 0) found of_found) k
        | inr m ↦
            elim (or_else_cases (if is_youtube row then attach_to (by_date found) else none) _ c
              m) [
                | inl k ↦ by_date-Aims row found c of_found k
                | inr n ↦ elim (or_else_cases (contend row (contested_of row found)) _ c n) [
                  | inl k ↦
                      contend-Aims row (contested_of row found) c
                        (All-contested_of row found of_found) k
                  | inr k ↦
                      review_of-Aims (of_best_rank (filter reviews evaluated)) c
                        (All-of_best_rank P (filter reviews evaluated)
                          (All-filter P reviews evaluated h))
                        k
                ]
              ]
      ]
