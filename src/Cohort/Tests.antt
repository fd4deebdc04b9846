-- ===== src/Cohort/Tests.antt =====
-- The cohort at a small database: artist 1 is followed, artist 2 plays sets, artist 3 is silent and
-- pinned, artist 4 is silent.
use diggy.Prelude.{
  ℕ, String, ◌≡◌, ◌≢◌, refl, true, false, not, ◌&&◌, ◌||◌, Option, none, some, List, [], ◌∷◌, ◌+◌,
  ◌≤◌, ◌==◌, arith, any, get_or, length, filter, count, mem, is_some, map,
}
use diggy.Prelude.Text.{str}
use diggy.Catalog.Rows.{artist}
use diggy.Cohort.Rows.{SignalTables, Signals, ArtistCohort}
use diggy.Cohort.Tier.{compute_tier, AtLeast}
use diggy.Cohort.Signals.{
  signals_of, candidate_ids, nb_catalog, nb_lib, nb_likes, nb_sets_12m, is_followed,
}
use diggy.Cohort.Signals.Complete.{candidates_complete}
use diggy.Cohort.Recompute.{
  recompute_cohort, qualifying, upsert_all, upsert, promote, demote, settle, tally, tally_row,
}
use diggy.Cohort.Recompute.Upsert.{row_of, HasOneRowEach}
use diggy.Cohort.Recompute.Spec.{next_row, recompute_cohort-next_row}
use diggy.Cohort.Recompute.Override.{SameDecisions, recompute_cohort-SameDecisions}
use diggy.Cohort.Recompute.Flush.{
  recompute_with_artists, IsFlushed, recompute_with_artists-IsFlushed,
}
use diggy.Cohort.Recompute.Again.{recompute_cohort_idempotent}
use diggy.Cohort.Service.{effective_tier, listed, list_cohort, Changes}
use diggy.Cohort.Due.{
  is_due, due_order, select_due_cohort_ids, IsDraw, select_due_cohort_ids-IsDraw,
}

abbrev now : ℕ
now = 86400000

abbrev tables : SignalTables
tables = record {
  catalog_artists = record { catalog_id = 50; artist_id = 2; role = none; position = none } ∷ [];
  user_tracks = [];
  sets =
      record {
        id = 9;
        parent_set_id = none;
        unreliable = false;
        event_date = none;
        played_date = some 990;
      }
      ∷ record {
        id = 8;
        parent_set_id = some 9;
        unreliable = false;
        event_date = none;
        played_date = some 990;
      }
      ∷ [];
  set_artists =
      record { set_id = 9; artist_id = 2; role = some "dj" }
      ∷ record { set_id = 8; artist_id = 2; role = some "dj" }
      ∷ [];
  user_opinions =
      record { user_id = 7; entity_type = artist; entity_key = str 5; opinion = "liked" } ∷ [];
  followed_artists = record { user_id = 7; artist_id = 1 } ∷ [];
}

abbrev row : ℕ → ℕ → ArtistCohort
row i tier = record {
  artist_id = i;
  tier = tier;
  computed_tier = some tier;
  forced_tier = none;
  pinned = false;
  excluded = false;
  signals = none;
  last_checked_at = none;
  last_recomputed_at = none;
  created_at = 5;
}

abbrev pinned_row : ArtistCohort
pinned_row = record (row 3 2) { pinned = true }

abbrev existing : List ArtistCohort
existing = row 2 1 ∷ pinned_row ∷ row 4 2 ∷ []

running : Unit {0}
unfolding recompute_cohort qualifying upsert_all upsert promote demote settle tally tally_row
    candidate_ids signals_of nb_catalog nb_lib nb_likes nb_sets_12m is_followed compute_tier str
    diggy.Prelude.Text.int_of
running = tt

tiers : map (λ r. r.tier) (recompute_cohort tables now existing).rows ≡ 2 ∷ 1 ∷ 1 ∷ 1 ∷ []
unfolding running
tiers = refl

ids : map (λ r. r.artist_id) (recompute_cohort tables now existing).rows ≡ 2 ∷ 3 ∷ 5 ∷ 1 ∷ []
unfolding running
ids = refl

pruned : (recompute_cohort tables now existing).stats.n_pruned ≡ 1
unfolding running
pruned = refl

one_each : HasOneRowEach existing
one_each = (refl, (refl, (refl, tt)))

recompute_cohort-next_row_example :
    (row_of 3 (recompute_cohort tables now existing).rows
      ≡ next_row tables now 3 (row_of 3 existing))
    × HasOneRowEach (recompute_cohort tables now existing).rows
recompute_cohort-next_row_example = recompute_cohort-next_row tables now existing 3 one_each

recompute_cohort-SameDecisions_example :
    (after : ArtistCohort) × (row_of 3 (recompute_cohort tables now existing).rows ≡ some after)
    × SameDecisions pinned_row after
    × (after.tier ≡ effective_tier after)
recompute_cohort-SameDecisions_example =
    recompute_cohort-SameDecisions tables now existing 3 pinned_row one_each refl refl

-- artist 5, whom a like names, is not in the table of artists
recompute_with_artists-IsFlushed_example :
    IsFlushed tables now
      (1 ∷ 2 ∷ [])
      existing
      (recompute_with_artists (1 ∷ 2 ∷ []) tables now existing)
recompute_with_artists-IsFlushed_example =
    recompute_with_artists-IsFlushed tables now (1 ∷ 2 ∷ []) existing one_each

recompute_cohort_idempotent_example :
    row_of 4 (recompute_cohort tables now (recompute_cohort tables now existing).rows).rows
    ≡ row_of 4 (recompute_cohort tables now existing).rows
recompute_cohort_idempotent_example = recompute_cohort_idempotent tables now existing 4 one_each

followed_tier : compute_tier (signals_of tables now 1) ≢ none
unfolding running
followed_tier h = cc h

candidates_complete_example : mem 1 (candidate_ids tables now) ≡ true
candidates_complete_example = candidates_complete tables now 1 followed_tier

abbrev weak : Signals
weak = record { nb_lib = 0; nb_likes = 0; nb_sets_12m = 2; nb_catalog = 10; followed = false }

abbrev strong : Signals
strong = record { nb_lib = 0; nb_likes = 0; nb_sets_12m = 3; nb_catalog = 12; followed = false }

stronger : AtLeast weak strong
stronger = record {
  nb_lib = omega arith;
  nb_likes = omega arith;
  nb_sets_12m = omega arith;
  nb_catalog = omega arith;
  followed = λ h. h;
}

select_due_cohort_ids-IsDraw_example :
    (drawn left : List ArtistCohort) × (select_due_cohort_ids now 2 existing
      ≡ map (λ row. row.artist_id) drawn)
    × IsDraw now 2 existing drawn left
select_due_cohort_ids-IsDraw_example = select_due_cohort_ids-IsDraw now 2 existing

draws : select_due_cohort_ids now 2 existing ≡ 2 ∷ 3 ∷ []
unfolding select_due_cohort_ids is_due due_order
draws = refl

two_pages : (list_cohort (some 2) none 1 1 existing).total ≤ 2
unfolding list_cohort listed
two_pages = omega arith

abbrev exclude : Changes
exclude = record { pinned = none; excluded = some true; forced_tier = none }

same_tier : (row 4 2).tier ≡ effective_tier (row 4 2)
unfolding effective_tier
same_tier = refl
