-- ===== src/Cohort/Service.antt =====
-- server/api/services/cohort_service.py: the listing of the cohort and the admin overrides. What
-- the listing joins from the artists, the name and the id at Deezer, is left out.
pub mod Pages
pub mod Patch
use diggy.Prelude.{
  ℕ, ◌-◌, ◌*◌, Bool, true, false, not, ◌&&◌, ◌||◌, Option, none, some, List, [], ◌∷◌, ◌++◌, ltb,
  leb, ◌==◌, if◌then◌else◌, is_some, get_or, length, take, drop, filter, any, find?,
}
use diggy.Prelude.Sort.{sort_by}
use diggy.Cohort.Rows.{ArtistCohort}

-- `_effective_tier`; the column tier is NOT NULL, so that the last default never serves.
unfoldable pub effective_tier : ArtistCohort → ℕ
effective_tier row = elim row.forced_tier [
  | some f ↦ f
  | none ↦ elim row.computed_tier [ some c ↦ c | none ↦ if row.pinned then 1 else row.tier ]
]

pub data OverrideFilter : Type 0 where
  pinned_only excluded_only : OverrideFilter

-- The conditions of the listing.
unfoldable pub listed : Option ℕ → Option OverrideFilter → ArtistCohort → Bool
listed tier override row = elim tier [ none ↦ true | some t ↦ row.tier == t ] && elim override [
  | none ↦ true
  | some OverrideFilter.pinned_only ↦ row.pinned
  | some OverrideFilter.excluded_only ↦ row.excluded
]

-- last_checked_at ASC NULLS FIRST: `a` not after `b`
abbrev pub null_first_le : Option ℕ → Option ℕ → Bool
null_first_le none b = true
null_first_le (some a) none = false
null_first_le (some a) (some b) = leb a b

abbrev pub null_first_lt : Option ℕ → Option ℕ → Bool
null_first_lt a b = not (null_first_le b a)

-- ORDER BY tier, last_checked_at NULLS FIRST, artist_id
unfoldable pub list_order : ArtistCohort → ArtistCohort → Bool
list_order a b =
    ltb a.tier b.tier
    || a.tier == b.tier
      && (null_first_lt a.last_checked_at b.last_checked_at
          || null_first_le a.last_checked_at b.last_checked_at && leb a.artist_id b.artist_id)

pub record Listing : Type 0 where
  pub total : ℕ
  pub items : List ArtistCohort

unfoldable pub list_cohort : Option ℕ → Option OverrideFilter → ℕ → ℕ → List ArtistCohort → Listing
list_cohort tier override page page_size rows =
    let found = filter (listed tier override) rows in
    record {
      total = length found;
      items = take page_size (drop ((page - 1) * page_size) (sort_by list_order found));
    }

-- The explicitly provided fields: `pinned` and `excluded` are applied when present and non-null,
-- `forced_tier` whenever it is present, and then its value may be null.
pub record Changes : Type 0 where
  pub pinned : Option Bool
  pub excluded : Option Bool
  pub forced_tier : Option (Option ℕ)

abbrev pub bare_row : ℕ → ℕ → ArtistCohort
bare_row now aid = record {
  artist_id = aid;
  tier = 1;
  computed_tier = none;
  forced_tier = none;
  pinned = false;
  excluded = false;
  signals = none;
  last_checked_at = none;
  last_recomputed_at = none;
  created_at = now;
}

abbrev pub with_tier : ArtistCohort → ArtistCohort
with_tier row = record row { tier = effective_tier row }

unfoldable pub apply_changes : Changes → ArtistCohort → ArtistCohort
apply_changes changes row = with_tier (record row {
  pinned = get_or changes.pinned row.pinned;
  excluded = get_or changes.excluded row.excluded;
  forced_tier = get_or changes.forced_tier row.forced_tier;
})

pub data Overridden : Type 0 where
  lookup_error : Overridden
  overridden : ArtistCohort → List ArtistCohort → Overridden

abbrev pub put : ArtistCohort → List ArtistCohort → List ArtistCohort
put row [] = row ∷ []
put row (r ∷ rows) =
    let rest = put row rows in if r.artist_id == row.artist_id then row ∷ rows else r ∷ rest

-- `artists` are the ids that exist. The result is the row returned and the table.
unfoldable pub set_override : List ℕ → ℕ → ℕ → Changes → List ArtistCohort → Overridden
set_override artists now artist_id changes rows =
    if any (λ i. i == artist_id) artists
    then (let row =
          apply_changes changes
            (get_or (find? (λ r. r.artist_id == artist_id) rows) (bare_row now artist_id)) in
        overridden row (put row rows))
    else lookup_error
