-- ===== src/Cohort/Recompute/Sweep.antt =====
-- What the second loop of `recompute_cohort` makes of the rows, one artist at a time.
use diggy.Prelude.{
  ℕ, ◌≡◌, refl, true, false, Option, none, some, List, [], ◌∷◌, arith, ◌==◌, Bool-cases,
  Option-cases, inl, inr, any, find?-any, filter_map,
}
use diggy.Cohort.Rows.{ArtistCohort}
use diggy.Cohort.Recompute.Upsert.{is_of, row_of, HasOneRowEach}

abbrev pub and_then :
    Option ArtistCohort → (ArtistCohort → Option ArtistCohort) → Option ArtistCohort
and_then none f = none
and_then (some row) f = f row

-- A step over rows that deletes a row or writes on it, and leaves the artist alone.
module _ (f : ArtistCohort → Option ArtistCohort)
    (same : (row kept : ArtistCohort) → f row ≡ some kept → kept.artist_id ≡ row.artist_id) where
  pub any-filter_map :
      (aid : ℕ) (rows : List ArtistCohort)
      → any (is_of aid) rows ≡ false
      → any (is_of aid) (filter_map f rows) ≡ false
  any-filter_map aid [] h = refl
  any-filter_map aid (row ∷ rows) h = elim (Option-cases (f row)) [
    | inl e ↦ rw e (any-filter_map aid rows (ground arith))
    | inr (kept, e) ↦ rw e (ground (arith, same row kept e, any-filter_map aid rows))
  ]

  pub filter_map-HasOneRowEach :
      (rows : List ArtistCohort) → HasOneRowEach rows → HasOneRowEach (filter_map f rows)
  filter_map-HasOneRowEach [] u = tt
  filter_map-HasOneRowEach (row ∷ rows) (fresh, u) = elim (Option-cases (f row)) [
    | inl e ↦ rw e (filter_map-HasOneRowEach rows u)
    | inr (kept, e) ↦ rw e (
      let p = same row kept e in rw p (any-filter_map row.artist_id rows fresh),
      filter_map-HasOneRowEach rows u,
    )
  ]

  pub row_of-filter_map :
      (aid : ℕ) (rows : List ArtistCohort)
      → HasOneRowEach rows
      → row_of aid (filter_map f rows) ≡ and_then (row_of aid rows) f
  row_of-filter_map aid [] u = refl
  row_of-filter_map aid (row ∷ rows) (fresh, u) = elim (Bool-cases (row.artist_id == aid)) [
    | inl here ↦
        let p : row.artist_id ≡ aid = ground arith in
        let gone : any (is_of aid) (filter_map f rows) ≡ false =
          any-filter_map aid rows (ground (arith, fresh)) in
        elim (Option-cases (f row)) [
          | inl e ↦ rw (here, e) (find?-any (is_of aid) (filter_map f rows) gone)
          | inr (kept, e) ↦
              let k : (kept.artist_id == aid) ≡ true = ground (arith, same row kept e) in
              rw (here, e, k) refl
        ]
    | inr other ↦ elim (Option-cases (f row)) [
      | inl e ↦ rw (other, e) (row_of-filter_map aid rows u)
      | inr (kept, e) ↦
          let k : (kept.artist_id == aid) ≡ false = ground (arith, same row kept e) in
          rw (other, e, k) (row_of-filter_map aid rows u)
    ]
  ]
