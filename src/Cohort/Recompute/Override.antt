-- ===== src/Cohort/Recompute/Override.antt =====
-- What a recompute does to what an admin decided.
use diggy.Prelude.{ℕ, ◌≡◌, refl, ap, ◌∙◌, true, Option, none, some, List, arith}
use diggy.Cohort.Rows.{SignalTables, Signals, ArtistCohort}
use diggy.Cohort.Tier.{compute_tier}
use diggy.Cohort.Signals.{signals_of}
use diggy.Cohort.Recompute.{promote, demote, has_override, recompute_cohort}
use diggy.Cohort.Recompute.Upsert.{row_of, HasOneRowEach}
use diggy.Cohort.Recompute.Spec.{next_row, next_row_for, recompute_cohort-next_row}
use diggy.Cohort.Service.{effective_tier}

-- The overrides, the last check and the date of creation are as before.
pub record SameDecisions (before after : ArtistCohort) : Type 0 where
  pub pinned : after.pinned ≡ before.pinned
  pub excluded : after.excluded ≡ before.excluded
  pub forced_tier : after.forced_tier ≡ before.forced_tier
  pub last_checked_at : after.last_checked_at ≡ before.last_checked_at
  pub created_at : after.created_at ≡ before.created_at

next_row_for-SameDecisions :
    (s : Signals) (now aid : ℕ) (ct : Option ℕ) (row : ArtistCohort)
    → has_override row ≡ true
    → (after : ArtistCohort) × (next_row_for s now aid ct (some row) ≡ some after)
      × SameDecisions row after
      × (after.tier ≡ effective_tier after)
unfolding promote demote effective_tier
next_row_for-SameDecisions s now aid (some ct) row h = (
  promote s now ct row,
  refl,
  record {
    pinned = refl;
    excluded = refl;
    forced_tier = refl;
    last_checked_at = refl;
    created_at = refl;
  },
  ground arith,
)
next_row_for-SameDecisions s now aid none row h = (
  demote s now row,
  rw h refl,
  record {
    pinned = refl;
    excluded = refl;
    forced_tier = refl;
    last_checked_at = refl;
    created_at = refl;
  },
  ground arith,
)

-- A row under an override is never dropped, whatever the signals of the artist, and the recompute
-- leaves the override as it was; the tier that it gives the row is the one that the admin service
-- would compute for it.
pub recompute_cohort-SameDecisions :
    (t : SignalTables) (now : ℕ) (rows : List ArtistCohort) (aid : ℕ) (row : ArtistCohort)
    → HasOneRowEach rows
    → row_of aid rows ≡ some row
    → has_override row ≡ true
    → (after : ArtistCohort) × (row_of aid (recompute_cohort t now rows).rows ≡ some after)
      × SameDecisions row after
      × (after.tier ≡ effective_tier after)
unfolding next_row
recompute_cohort-SameDecisions t now rows aid row u found h =
    let s = signals_of t now aid in
    let (after, e, same, tier) = next_row_for-SameDecisions s now aid (compute_tier s) row h in
    (
      after,
      (recompute_cohort-next_row t now rows aid u).0
          ∙ ap (λ o. next_row_for s now aid (compute_tier s) o) found
          ∙ e,
      same,
      tier,
    )
