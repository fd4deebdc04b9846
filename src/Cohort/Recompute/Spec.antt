-- ===== src/Cohort/Recompute/Spec.antt =====
-- The recompute as a rule on one artist at a time, and that `recompute_cohort` follows it.
use diggy.Prelude.{
  ℕ, ◌≡◌, ◌≢◌, refl, ap, ==_iff, find?-eq-some, ◌∙◌, true, false, ◌&&◌, Option, none, some, List,
  [], ◌∷◌, arith, ◌==◌, Bool-cases, Option-cases, inl, inr, if◌then◌else◌, is_some, get_or, any,
  filter_map, All, mem,
}
use diggy.Cohort.Rows.{SignalTables, Signals, ArtistCohort}
use diggy.Cohort.Tier.{compute_tier}
use diggy.Cohort.Signals.{signals_of, candidate_ids}
use diggy.Cohort.Signals.Complete.{candidates_complete}
use diggy.Cohort.Recompute.{
  Qualifying, qualify, qualifying, new_row, promote, has_override, demote, settle, upsert_all,
  recompute_cohort,
}
use diggy.Cohort.Recompute.Upsert.{
  is_of, row_of, names, promoted, HasOneRowEach, Computed, row_of-upsert_all,
  row_of-upsert_all_other, upsert_all-HasOneRowEach,
}
use diggy.Cohort.Recompute.Sweep.{and_then, row_of-filter_map, filter_map-HasOneRowEach}

-- The row that an artist should have, from its signals and the row it has: promoted or created if
-- it qualifies; else kept under an override, and otherwise dropped.
abbrev pub keep_overridden : Signals → ℕ → Option ArtistCohort → Option ArtistCohort
keep_overridden s now none = none
keep_overridden s now (some row) = if has_override row then some (demote s now row) else none

abbrev pub next_row_for : Signals → ℕ → ℕ → Option ℕ → Option ArtistCohort → Option ArtistCohort
next_row_for s now aid (some ct) o = some (promote s now ct (get_or o (new_row now aid)))
next_row_for s now aid none o = keep_overridden s now o

unfoldable pub next_row : SignalTables → ℕ → ℕ → Option ArtistCohort → Option ArtistCohort
next_row t now aid o = let s = signals_of t now aid in next_row_for s now aid (compute_tier s) o

module _ (t : SignalTables) (now : ℕ) where
  any-qualify :
      (aid : ℕ) (ids : List ℕ)
      → any (names aid) (filter_map (qualify t now) ids)
        ≡ mem aid ids && is_some (compute_tier (signals_of t now aid))
  any-qualify aid [] = refl
  any-qualify aid (i ∷ ids) = elim (Bool-cases (i == aid)) [
    | inl here ↦ let p : i ≡ aid = ground arith in rw p (ground (arith, any-qualify aid ids))
    | inr other ↦ ground (arith, any-qualify aid ids)
  ]

  pub qualifying_iff :
      (aid : ℕ) → any (names aid) (qualifying t now) ≡ is_some (compute_tier (signals_of t now aid))
  unfolding qualifying
  qualifying_iff aid =
      any-qualify aid (candidate_ids t now)
      ∙ elim (Option-cases (compute_tier (signals_of t now aid))) [
        | inl e ↦ rw e (ground arith)
        | inr (ct, e) ↦
            let some_tier : compute_tier (signals_of t now aid) ≢ none = λ k. cc in
            rw (candidates_complete t now aid some_tier) refl
      ]

  qualify-Computed : (ids : List ℕ) → All (Computed t now) (filter_map (qualify t now) ids)
  qualify-Computed [] = tt
  qualify-Computed (i ∷ ids) = elim (Option-cases (compute_tier (signals_of t now i))) [
    | inl e ↦ rw e (qualify-Computed ids)
    | inr (ct, e) ↦ rw e (e, qualify-Computed ids)
  ]

  qualifying-Computed : All (Computed t now) (qualifying t now)
  unfolding qualifying
  qualifying-Computed = qualify-Computed (candidate_ids t now)

  settle-artist_id :
      (qs : List Qualifying) (row kept : ArtistCohort)
      → settle t now qs row ≡ some kept
      → kept.artist_id ≡ row.artist_id
  unfolding settle demote
  settle-artist_id qs row kept h = ground arith

  settle-qualifying :
      (aid ct : ℕ) (row : ArtistCohort)
      → row.artist_id ≡ aid
      → compute_tier (signals_of t now aid) ≡ some ct
      → settle t now (qualifying t now) row ≡ some row
  unfolding settle
  settle-qualifying aid ct row p e =
      let named : any (names row.artist_id) (qualifying t now) ≡ true =
        ap (λ a. any (names a) (qualifying t now)) p ∙ qualifying_iff aid ∙ ap is_some e in
      rw named refl

  settle_silent :
      (aid : ℕ) (row : ArtistCohort)
      → row.artist_id ≡ aid
      → compute_tier (signals_of t now aid) ≡ none
      → settle t now (qualifying t now) row ≡ keep_overridden (signals_of t now aid) now (some row)
  unfolding settle
  settle_silent aid row p e =
      let unnamed : any (names row.artist_id) (qualifying t now) ≡ false =
        ap (λ a. any (names a) (qualifying t now)) p ∙ qualifying_iff aid ∙ ap is_some e in
      rw (unnamed, p) refl

  swept_member :
      (aid ct : ℕ) (o : Option ArtistCohort)
      → ((row : ArtistCohort) → o ≡ some row → row.artist_id ≡ aid)
      → compute_tier (signals_of t now aid) ≡ some ct
      → and_then (some (promoted t now aid ct o)) (settle t now (qualifying t now))
        ≡ next_row t now aid o
  unfolding next_row promote
  swept_member aid ct none own e =
      rw e (settle-qualifying aid ct (promoted t now aid ct none) refl e)
  swept_member aid ct (some row) own e =
      rw e (settle-qualifying aid ct (promoted t now aid ct (some row)) (own row refl) e)

  swept_silent :
      (aid : ℕ) (o : Option ArtistCohort)
      → ((row : ArtistCohort) → o ≡ some row → row.artist_id ≡ aid)
      → compute_tier (signals_of t now aid) ≡ none
      → and_then o (settle t now (qualifying t now)) ≡ next_row t now aid o
  unfolding next_row
  swept_silent aid none own e = rw e refl
  swept_silent aid (some row) own e = rw e (settle_silent aid row (own row refl) e)

  -- The recompute treats every artist by its own signals and its own row alone, whatever the other
  -- rows and the order of the loops, and leaves one row at most for each.
  pub recompute_cohort-next_row :
      (rows : List ArtistCohort) (aid : ℕ)
      → HasOneRowEach rows
      → (row_of aid (recompute_cohort t now rows).rows ≡ next_row t now aid (row_of aid rows))
        × HasOneRowEach (recompute_cohort t now rows).rows
  unfolding recompute_cohort
  recompute_cohort-next_row rows aid u =
      let qs = qualifying t now in
      let all = upsert_all t now qs rows in
      let one = upsert_all-HasOneRowEach t now qs rows u in
      let own : (row : ArtistCohort) → row_of aid rows ≡ some row → row.artist_id ≡ aid =
        λ row e. (==_iff row.artist_id aid).0 (find?-eq-some (is_of aid) rows row e) in
      (
        row_of-filter_map (settle t now qs) (settle-artist_id qs) aid all one
            ∙ elim (Option-cases (compute_tier (signals_of t now aid))) [
              | inl e ↦
                  let unnamed : any (names aid) qs ≡ false = qualifying_iff aid ∙ ap is_some e in
                  ap (λ o. and_then o (settle t now qs))
                    (row_of-upsert_all_other t now aid qs rows unnamed)
                  ∙ swept_silent aid (row_of aid rows) own e
              | inr (ct, e) ↦
                  let named : any (names aid) qs ≡ true = qualifying_iff aid ∙ ap is_some e in
                  ap (λ o. and_then o (settle t now qs))
                    (row_of-upsert_all t now aid ct qs rows e (qualifying-Computed) named)
                  ∙ swept_member aid ct (row_of aid rows) own e
            ],
        filter_map-HasOneRowEach (settle t now qs) (settle-artist_id qs) all one,
      )
