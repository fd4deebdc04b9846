-- ===== src/Cohort/Recompute/Upsert.antt =====
-- What the first loop of `recompute_cohort` makes of the row of one artist.
use diggy.Prelude.{
  ℕ, ◌≡◌, refl, ◌∙◌, ap, Bool, true, false, Option, some, List, [], ◌∷◌, arith, ◌==◌, Bool-cases,
  inl, inr, if◌then◌else◌, get_or, any, find?, All, subst,
}
use diggy.Cohort.Rows.{SignalTables, ArtistCohort}
use diggy.Cohort.Tier.{compute_tier}
use diggy.Cohort.Signals.{signals_of}
use diggy.Cohort.Recompute.{Qualifying, new_row, promote, upsert, upsert_all}

abbrev pub is_of : ℕ → ArtistCohort → Bool
is_of aid row = row.artist_id == aid

abbrev pub row_of : ℕ → List ArtistCohort → Option ArtistCohort
row_of aid rows = find? (is_of aid) rows

abbrev pub names : ℕ → Qualifying → Bool
names aid q = q.artist_id == aid

-- artist_id is the primary key.
abbrev pub HasOneRowEach : List ArtistCohort → Type 0
HasOneRowEach [] = Unit
HasOneRowEach (row ∷ rows) = (any (is_of row.artist_id) rows ≡ false) × HasOneRowEach rows

module _ (t : SignalTables) (now : ℕ) where
  -- the row of `aid` after a pass for `aid`
  abbrev pub promoted : ℕ → ℕ → Option ArtistCohort → ArtistCohort
  promoted aid ct o = promote (signals_of t now aid) now ct (get_or o (new_row now aid))

  row_of-upsert :
      (q : Qualifying) (rows : List ArtistCohort)
      → row_of q.artist_id (upsert t now q rows)
        ≡ some (promoted q.artist_id q.computed (row_of q.artist_id rows))
  unfolding upsert promote
  row_of-upsert q [] = ground arith
  row_of-upsert q (row ∷ rows) = elim (Bool-cases (row.artist_id == q.artist_id)) [
    | inl e ↦ rw (e, e)
    | inr e ↦ rw (e, e) (row_of-upsert q rows)
  ]

  row_of-upsert_other :
      (q : Qualifying) (aid : ℕ) (rows : List ArtistCohort)
      → names aid q ≡ false
      → row_of aid (upsert t now q rows) ≡ row_of aid rows
  unfolding upsert promote
  row_of-upsert_other q aid [] h = ground arith
  row_of-upsert_other q aid (row ∷ rows) h = elim (Bool-cases (row.artist_id == q.artist_id)) [
    | inl e ↦ let k : (row.artist_id == aid) ≡ false = ground arith in rw (e, k)
    | inr e ↦
        rw e (
          ap (λ o. if row.artist_id == aid then some row else o) (row_of-upsert_other q aid rows h))
  ]

  any-upsert :
      (q : Qualifying) (aid : ℕ) (rows : List ArtistCohort)
      → names aid q ≡ false
      → any (is_of aid) (upsert t now q rows) ≡ any (is_of aid) rows
  unfolding upsert promote
  any-upsert q aid [] h = ground arith
  any-upsert q aid (row ∷ rows) h = ground (arith, any-upsert q aid rows h)

  upsert-HasOneRowEach :
      (q : Qualifying) (rows : List ArtistCohort)
      → HasOneRowEach rows
      → HasOneRowEach (upsert t now q rows)
  unfolding upsert promote
  upsert-HasOneRowEach q [] u = (refl, tt)
  upsert-HasOneRowEach q (row ∷ rows) (fresh, u) =
      elim (Bool-cases (row.artist_id == q.artist_id)) [
        | inl e ↦ rw e (fresh, u)
        | inr e ↦
            rw e (
              any-upsert q row.artist_id rows (ground arith) ∙ fresh,
              upsert-HasOneRowEach q rows u,
            )
      ]

  pub upsert_all-HasOneRowEach :
      (qs : List Qualifying) (rows : List ArtistCohort)
      → HasOneRowEach rows
      → HasOneRowEach (upsert_all t now qs rows)
  unfolding upsert_all
  upsert_all-HasOneRowEach [] rows u = u
  upsert_all-HasOneRowEach (q ∷ qs) rows u =
      upsert_all-HasOneRowEach qs (upsert t now q rows) (upsert-HasOneRowEach q rows u)

  -- An artist that does not qualify keeps the row it has.
  pub row_of-upsert_all_other :
      (aid : ℕ) (qs : List Qualifying) (rows : List ArtistCohort)
      → any (names aid) qs ≡ false
      → row_of aid (upsert_all t now qs rows) ≡ row_of aid rows
  unfolding upsert_all
  row_of-upsert_all_other aid [] rows h = refl
  row_of-upsert_all_other aid (q ∷ qs) rows h =
      row_of-upsert_all_other aid qs (upsert t now q rows) (ground arith)
      ∙ row_of-upsert_other q aid rows (ground arith)

  abbrev pub Computed : Qualifying → Type 0
  Computed q = compute_tier (signals_of t now q.artist_id) ≡ some q.computed

  row_of-upsert_at :
      (aid ct : ℕ) (q : Qualifying) (rows : List ArtistCohort)
      → compute_tier (signals_of t now aid) ≡ some ct
      → Computed q
      → names aid q ≡ true
      → row_of aid (upsert t now q rows) ≡ some (promoted aid ct (row_of aid rows))
  row_of-upsert_at aid ct q rows c d h =
      let p : q.artist_id ≡ aid = ground arith in
      let e : compute_tier (signals_of t now aid) ≡ some q.computed =
        subst (λ a. compute_tier (signals_of t now a) ≡ some q.computed) p d in
      let k : q.computed ≡ ct = cc in
      subst (λ a. row_of a (upsert t now q rows) ≡ some (promoted a ct (row_of a rows))) p
        (subst
          (λ n.
            row_of q.artist_id (upsert t now q rows)
            ≡ some (promoted q.artist_id n (row_of q.artist_id rows)))
          k (row_of-upsert q rows))

  -- An artist that qualifies has the promoted row, however often it is named.
  pub row_of-upsert_all :
      (aid ct : ℕ) (qs : List Qualifying) (rows : List ArtistCohort)
      → compute_tier (signals_of t now aid) ≡ some ct
      → All Computed qs
      → any (names aid) qs ≡ true
      → row_of aid (upsert_all t now qs rows) ≡ some (promoted aid ct (row_of aid rows))
  unfolding upsert_all promote
  row_of-upsert_all aid ct [] rows c d h = ground arith
  row_of-upsert_all aid ct (q ∷ qs) rows c (d, ds) h = elim (Bool-cases (any (names aid) qs)) [
    | inl again ↦
        row_of-upsert_all aid ct qs (upsert t now q rows) c ds again
        ∙ elim (Bool-cases (names aid q)) [
          | inl here ↦ rw (row_of-upsert_at aid ct q rows c d here) refl
          | inr other ↦ rw (row_of-upsert_other q aid rows other) refl
        ]
    | inr last ↦
        row_of-upsert_all_other aid qs (upsert t now q rows) last
        ∙ row_of-upsert_at aid ct q rows c d (ground arith)
  ]
