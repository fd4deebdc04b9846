-- ===== src/Cohort/Recompute/Tally.antt =====
-- The statistics of a recompute.
use diggy.Prelude.{
  ℕ, ◌+◌, ◌≡◌, refl, ◌∙◌, Bool, true, false, not, ◌&&◌, List, [], ◌∷◌, arith, ◌==◌, length, count,
  filter_map, Option, is_some, if◌then◌else◌, Option-cases, inl, inr,
}
use diggy.Cohort.Rows.{SignalTables, ArtistCohort}
use diggy.Cohort.Recompute.{
  Stats, tally_row, tally, settle, qualifying, upsert_all, recompute_cohort,
}

-- What each statistic counts.
abbrev pub watched : ℕ → ArtistCohort → Bool
watched n row = not row.excluded && row.tier == n

abbrev pub watched_otherwise : ArtistCohort → Bool
watched_otherwise row = not row.excluded && not (row.tier == 1) && not (row.tier == 2)

pub record Counts (s before : Stats) (rows : List ArtistCohort) : Type 0 where
  pub n_t1 : s.n_t1 ≡ before.n_t1 + count (watched 1) rows
  pub n_t2 : s.n_t2 ≡ before.n_t2 + count (watched 2) rows
  pub n_pinned : s.n_pinned ≡ before.n_pinned + count (λ r. r.pinned) rows
  pub n_excluded : s.n_excluded ≡ before.n_excluded + count (λ r. r.excluded) rows
  pub n_pruned : s.n_pruned ≡ before.n_pruned
  pub n_total : s.n_total ≡ before.n_total

tally_row-Counts : (s : Stats) (row : ArtistCohort) → Counts (tally_row s row) s (row ∷ [])
unfolding tally_row
tally_row-Counts s row = record {
  n_t1 = ground arith;
  n_t2 = ground arith;
  n_pinned = ground arith;
  n_excluded = ground arith;
  n_pruned = refl;
  n_total = refl;
}

tally-Counts : (s : Stats) (rows : List ArtistCohort) → Counts (tally s rows) s rows
unfolding tally
tally-Counts s [] = record {
  n_t1 = omega arith;
  n_t2 = omega arith;
  n_pinned = omega arith;
  n_excluded = omega arith;
  n_pruned = refl;
  n_total = refl;
}
tally-Counts s (row ∷ rows) =
    let one = tally_row-Counts s row in
    let rest = tally-Counts (tally_row s row) rows in
    record {
      n_t1 = omega (arith, one.n_t1, rest.n_t1);
      n_t2 = omega (arith, one.n_t2, rest.n_t2);
      n_pinned = omega (arith, one.n_pinned, rest.n_pinned);
      n_excluded = omega (arith, one.n_excluded, rest.n_excluded);
      n_pruned = rest.n_pruned ∙ one.n_pruned;
      n_total = rest.n_total ∙ one.n_total;
    }

-- every row is excluded, or in one tier
length-by_tier :
    (rows : List ArtistCohort)
    → length rows
      ≡ count (watched 1) rows
        + count (watched 2) rows
        + count (λ r. r.excluded) rows
        + count watched_otherwise rows
length-by_tier [] = omega arith
length-by_tier (row ∷ rows) = ground (arith, length-by_tier rows)

length-filter_map :
    (f : ArtistCohort → Option ArtistCohort) (rows : List ArtistCohort)
    → length (filter_map f rows) + count (λ r. if is_some (f r) then false else true) rows
      ≡ length rows
length-filter_map f [] = omega arith
length-filter_map f (row ∷ rows) = elim (Option-cases (f row)) [
  | inl e ↦ rw e (omega (arith, length-filter_map f rows))
  | inr (kept, e) ↦ rw e (omega (arith, length-filter_map f rows))
]

-- The statistics are those of the rows: each counter counts the rows that its name says, the total
-- is the sum of the excluded rows and of the others by tier (those of another tier than 1 and 2
-- among them), and the rows kept and the rows pruned are all the rows that there were or that the
-- first loop made.
pub recompute_cohort-Stats :
    (t : SignalTables) (now : ℕ) (existing : List ArtistCohort)
    → let r = recompute_cohort t now existing in
      (r.stats.n_t1 ≡ count (watched 1) r.rows)
      × (r.stats.n_t2 ≡ count (watched 2) r.rows)
      × (r.stats.n_pinned ≡ count (λ row. row.pinned) r.rows)
      × (r.stats.n_total
          ≡ r.stats.n_t1 + r.stats.n_t2 + r.stats.n_excluded + count watched_otherwise r.rows)
      × (r.stats.n_total + r.stats.n_pruned ≡ length (upsert_all t now (qualifying t now) existing))
unfolding recompute_cohort
recompute_cohort-Stats t now existing =
    let promoted = upsert_all t now (qualifying t now) existing in
    let f = settle t now (qualifying t now) in
    let zero : Stats = record {
      n_t1 = 0;
      n_t2 = 0;
      n_pinned = 0;
      n_excluded = 0;
      n_pruned = count (λ row. if is_some (f row) then false else true) promoted;
      n_total = length (filter_map f promoted);
    } in
    let c = tally-Counts zero (filter_map f promoted) in
    let whole = length-by_tier (filter_map f promoted) in
    let pruned = length-filter_map f promoted in
    (
      omega (arith, c.n_t1),
      omega (arith, c.n_t2),
      omega (arith, c.n_pinned),
      omega (arith, c.n_t1, c.n_t2, c.n_excluded, c.n_total, whole),
      omega (arith, c.n_total, c.n_pruned, pruned),
    )
