-- ===== src/Cohort/Recompute.antt =====
-- `recompute_cohort` of server/workers/cohort.py: the upsert of the artists that qualify, the sweep
-- over the rows that do not, and the statistics. The foreign key to the artists, which the flush
-- checks, is in Flush.
pub mod Upsert
pub mod Sweep
pub mod Spec
pub mod Tally
pub mod Override
pub mod Again
pub mod Flush
use diggy.Prelude.{
  ℕ, suc, ◌+◌, Bool, true, false, ◌&&◌, ◌||◌, Option, none, some, List, [], ◌∷◌, ◌==◌,
  if◌then◌else◌, is_some, get_or, length, filter_map, any, count,
}
use diggy.Cohort.Rows.{SignalTables, Signals, ArtistCohort}
use diggy.Cohort.Tier.{compute_tier}
use diggy.Cohort.Signals.{signals_of, candidate_ids}

-- The qualifying artists with their tiers.
pub record Qualifying : Type 0 where
  pub artist_id : ℕ
  pub computed : ℕ

abbrev pub with_tier : ℕ → Option ℕ → Option Qualifying
with_tier aid none = none
with_tier aid (some ct) = some (record { artist_id = aid; computed = ct })

abbrev pub qualify : SignalTables → ℕ → ℕ → Option Qualifying
qualify t now aid = with_tier aid (compute_tier (signals_of t now aid))

unfoldable pub qualifying : SignalTables → ℕ → List Qualifying
qualifying t now = filter_map (qualify t now) (candidate_ids t now)

abbrev pub new_row : ℕ → ℕ → ArtistCohort
new_row now aid = record {
  artist_id = aid;
  tier = 0;
  computed_tier = none;
  forced_tier = none;
  pinned = false;
  excluded = false;
  signals = none;
  last_checked_at = none;
  last_recomputed_at = none;
  created_at = now;
}

-- What the first loop writes on a row.
unfoldable pub promote : Signals → ℕ → ℕ → ArtistCohort → ArtistCohort
promote s now ct row = record row {
  computed_tier = some ct;
  signals = some s;
  last_recomputed_at = some now;
  tier = get_or row.forced_tier ct;
}

-- One pass of the first loop: the row is created where the artist has none.
unfoldable pub upsert : SignalTables → ℕ → Qualifying → List ArtistCohort → List ArtistCohort
upsert t now q [] =
    promote (signals_of t now q.artist_id) now q.computed (new_row now q.artist_id) ∷ []
upsert t now q (row ∷ rows) =
    let rest = upsert t now q rows in
    if row.artist_id == q.artist_id
    then promote (signals_of t now q.artist_id) now q.computed row ∷ rows
    else row ∷ rest

unfoldable pub upsert_all :
    SignalTables → ℕ → List Qualifying → List ArtistCohort → List ArtistCohort
upsert_all t now [] rows = rows
upsert_all t now (q ∷ qs) rows = upsert_all t now qs (upsert t now q rows)

abbrev pub has_override : ArtistCohort → Bool
has_override row = row.pinned || row.excluded || is_some row.forced_tier

-- What the second loop writes on a row that it keeps.
unfoldable pub demote : Signals → ℕ → ArtistCohort → ArtistCohort
demote s now row = record row {
  computed_tier = none;
  signals = some s;
  last_recomputed_at = some now;
  tier = elim row.forced_tier [ none ↦ if row.pinned then 1 else row.tier | some f ↦ f ];
}

-- The second loop at one row; `none` is a row that it deletes.
unfoldable pub settle : SignalTables → ℕ → List Qualifying → ArtistCohort → Option ArtistCohort
settle t now qs row =
    if any (λ q. q.artist_id == row.artist_id) qs
    then some row
    else (if has_override row then some (demote (signals_of t now row.artist_id) now row) else none)

pub record Stats : Type 0 where
  pub n_t1 : ℕ
  pub n_t2 : ℕ
  pub n_pinned : ℕ
  pub n_excluded : ℕ
  pub n_pruned : ℕ
  pub n_total : ℕ

-- The loop over the rows that are left.
unfoldable pub tally_row : Stats → ArtistCohort → Stats
tally_row s row = record s {
  n_pinned = if row.pinned then suc s.n_pinned else s.n_pinned;
  n_excluded = if row.excluded then suc s.n_excluded else s.n_excluded;
  n_t1 = if row.excluded then s.n_t1 else (if row.tier == 1 then suc s.n_t1 else s.n_t1);
  n_t2 =
      if row.excluded
      then s.n_t2
      else (if row.tier == 1 then s.n_t2 else (if row.tier == 2 then suc s.n_t2 else s.n_t2));
}

unfoldable pub tally : Stats → List ArtistCohort → Stats
tally s [] = s
tally s (row ∷ rows) = tally (tally_row s row) rows

pub record Recomputed : Type 0 where
  pub rows : List ArtistCohort
  pub stats : Stats

unfoldable pub recompute_cohort : SignalTables → ℕ → List ArtistCohort → Recomputed
recompute_cohort t now existing =
    let qs = qualifying t now in
    let promoted = upsert_all t now qs existing in
    let kept = filter_map (settle t now qs) promoted in
    let zero : Stats = record {
      n_t1 = 0;
      n_t2 = 0;
      n_pinned = 0;
      n_excluded = 0;
      n_pruned = count (λ row. if is_some (settle t now qs row) then false else true) promoted;
      n_total = length kept;
    } in
    record { rows = kept; stats = tally zero kept }
