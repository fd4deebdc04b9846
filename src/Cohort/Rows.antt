-- ===== src/Cohort/Rows.antt =====
-- The tables that the cohort is derived from (server/api/models: sets.py, artist.py, and the rows
-- of the catalog), and the table artist_cohort. Instants are seconds since the epoch, dates are
-- days since it. Columns that neither module of the cohort reads or writes are left out.
use diggy.Prelude.{ℕ, String, Bool, Option, List}
use diggy.Catalog.Rows.{CatalogArtist, UserTrack, UserOpinion}

pub record DjSet : Type 0 where
  pub id : ℕ
  pub parent_set_id : Option ℕ
  pub unreliable : Bool
  pub event_date : Option ℕ
  pub played_date : Option ℕ

pub record SetArtist : Type 0 where
  pub set_id : ℕ
  pub artist_id : ℕ
  pub role : Option String

pub record FollowedArtist : Type 0 where
  pub user_id : ℕ
  pub artist_id : ℕ

pub record SignalTables : Type 0 where
  pub catalog_artists : List CatalogArtist
  pub user_tracks : List UserTrack
  pub sets : List DjSet
  pub set_artists : List SetArtist
  pub user_opinions : List UserOpinion
  pub followed_artists : List FollowedArtist

pub record Signals : Type 0 where
  pub nb_lib : ℕ
  pub nb_likes : ℕ
  pub nb_sets_12m : ℕ
  pub nb_catalog : ℕ
  pub followed : Bool

pub record ArtistCohort : Type 0 where
  pub artist_id : ℕ
  pub tier : ℕ
  pub computed_tier : Option ℕ
  pub forced_tier : Option ℕ
  pub pinned : Bool
  pub excluded : Bool
  pub signals : Option Signals
  pub last_checked_at : Option ℕ
  pub last_recomputed_at : Option ℕ
  pub created_at : ℕ
