-- ===== src/Catalog/Dedup/Tests.antt =====
-- The guard at a catalog of three rows with one platform id: 1 and 2 have the same title, 3 is a
-- remix.
use diggy.Prelude.{ℕ, String, ◌≡◌, refl, false, none, some, [], ◌∷◌}
use diggy.Catalog.Rows.{CatalogEntry, shared, Db}
use diggy.Catalog.Merge.{merge_catalog_entries}
use diggy.Catalog.Dedup.{same_track, holders, left_apart, folded, fold_if_platform_id_taken}
use diggy.Catalog.Dedup.Guard.{HasUniqueIds, IsGuarded, fold_if_platform_id_taken-IsGuarded}

abbrev as_is : String → String
as_is title = title

abbrev entry : ℕ → String → CatalogEntry
entry i title = record {
  id = i;
  title = title;
  artist = some "deadmau5";
  normalized_key = title;
  isrc = none;
  deezer_id = some "42";
  beatport_id = none;
  bpm = none;
  key = none;
  duration_ms = none;
  genres = [];
  release_date = none;
  has_artwork = false;
  has_preview = false;
  created_at = none;
  scope = shared;
  owner_id = none;
  bpm_source = none;
  key_source = none;
  bpm_analyzed_at = none;
  bpm_analysis_attempts = 0;
  label = none;
  deezer_searched_at = none;
  beatport_searched_at = none;
  deezer_search_attempts = 0;
  beatport_search_attempts = 0;
}

abbrev tables : Db
tables = record {
  catalog = entry 3 "Strobe (remix)" ∷ entry 1 "Strobe" ∷ entry 2 "Strobe" ∷ [];
  catalog_artists = [];
  user_tracks = [];
  collection_items = [];
  user_radar_state = [];
  set_tracks = record { id = 5; catalog_id = some 2 } ∷ [];
  radar_tracks = [];
  artist_activity = [];
  radar_trends = [];
  user_opinions = [];
  catalog_albums = [];
  track_embeddings = [];
}

guarding : Unit {0}
unfolding same_track holders fold_if_platform_id_taken
guarding = tt

folds :
    fold_if_platform_id_taken as_is (λ e. e.deezer_id) (entry 2 "Strobe") "42" tables
    ≡ folded 1 (merge_catalog_entries 1 2 tables)
unfolding guarding
folds = refl

remix_apart :
    fold_if_platform_id_taken as_is (λ e. e.deezer_id) (entry 3 "Strobe (remix)") "42" tables
    ≡ left_apart
unfolding guarding
remix_apart = refl

unique : HasUniqueIds tables
unique = (refl, (refl, (refl, tt)))

fold_if_platform_id_taken-IsGuarded_example :
    IsGuarded as_is
      (λ e. e.deezer_id)
      (entry 2 "Strobe")
      "42"
      tables
      (fold_if_platform_id_taken as_is (λ e. e.deezer_id) (entry 2 "Strobe") "42" tables)
fold_if_platform_id_taken-IsGuarded_example =
    fold_if_platform_id_taken-IsGuarded as_is (λ e. e.deezer_id) (entry 2 "Strobe") "42" tables
      unique refl
