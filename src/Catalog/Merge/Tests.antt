-- ===== src/Catalog/Merge/Tests.antt =====
-- A merge at a small database, and the theorems on it there.
use diggy.Prelude.{
  ℕ, ◌≡◌, refl, true, false, none, some, [], ◌∷◌, ◌&&◌, ◌==◌, arith, any, count, or_else,
}
use diggy.Prelude.Text.{str}
use diggy.Catalog.Rows.{CatalogEntry, shared, private, Db, track, artist}
use diggy.Catalog.Repoint.{repoint_composite, repoint_simple}
use diggy.Catalog.Absorb.{absorb, absorb_metadata, absorb_ids, latest, merge_genres}
use diggy.Catalog.Merge.{
  done, value_error, avis_of, fill_avis, repoint_all, delete_entry, fold_entries,
  merge_catalog_entries,
}
use diggy.Catalog.Merge.Tables.{AreDuplicates}
use diggy.Catalog.Merge.Correct.{
  Unreferenced, KeepsLinks, HasKeys, merge-Unreferenced, merge-KeepsLinks, merge-HasKeys,
}
use diggy.Catalog.Merge.Avis.{merge-avis}
use diggy.Catalog.Merge.Lost.{merge-loses_albums}
use diggy.Catalog.Merge.Again.{merge_idempotent}

abbrev kept : CatalogEntry
kept = record {
  id = 1;
  title = "Strobe";
  artist = some "deadmau5";
  normalized_key = "strobe - deadmau5";
  isrc = none;
  deezer_id = some "42";
  beatport_id = none;
  bpm = some 1280;
  key = none;
  duration_ms = none;
  genres = "Techno" ∷ [];
  release_date = none;
  has_artwork = true;
  has_preview = false;
  created_at = some 10;
  scope = private;
  owner_id = some 7;
  bpm_source = some "beatport";
  key_source = none;
  bpm_analyzed_at = none;
  bpm_analysis_attempts = 0;
  label = none;
  deezer_searched_at = some 3;
  beatport_searched_at = none;
  deezer_search_attempts = 1;
  beatport_search_attempts = 0;
}

abbrev dropped : CatalogEntry
dropped = record kept {
  id = 2;
  isrc = some "USABC1234567";
  bpm = some 1279;
  bpm_source = some "analysis";
  key = some "8A";
  key_source = some "rekordbox";
  genres = "House" ∷ "Techno" ∷ [];
  has_artwork = false;
  has_preview = true;
  scope = shared;
  owner_id = none;
  deezer_searched_at = some 5;
}

abbrev db : Db
db = record {
  catalog = kept ∷ dropped ∷ [];
  catalog_artists =
      record { catalog_id = 1; artist_id = 100; role = none; position = none }
      ∷ record { catalog_id = 2; artist_id = 100; role = none; position = none }
      ∷ record { catalog_id = 2; artist_id = 101; role = none; position = none }
      ∷ [];
  user_tracks =
      record { user_id = 7; catalog_id = 1; source = none; avis = none }
      ∷ record { user_id = 7; catalog_id = 2; source = none; avis = some "liked" }
      ∷ [];
  collection_items =
      record { id = 1; collection_id = 5; item_type = track; item_id = some 2; position = 0 }
      ∷ record { id = 2; collection_id = 5; item_type = artist; item_id = some 2; position = 1 }
      ∷ [];
  user_radar_state =
      record { user_id = 7; catalog_id = 2; status = "added"; updated_at = none } ∷ [];
  set_tracks = record { id = 1; catalog_id = some 2 } ∷ [];
  radar_tracks = record { id = 1; catalog_id = none } ∷ [];
  artist_activity = [];
  radar_trends = record { catalog_id = 2; trend_score = 9 } ∷ [];
  user_opinions =
      record { user_id = 7; entity_type = track; entity_key = str 2; opinion = "liked" } ∷ [];
  catalog_albums = record { catalog_id = 2; album_id = 31 } ∷ [];
  track_embeddings =
      record { id = 1; catalog_id = 2; model_name = "discogs-effnet"; model_version = "bs64-1" }
      ∷ [];
}

merging : Unit {0}
unfolding merge_catalog_entries fold_entries delete_entry repoint_all fill_avis avis_of
    repoint_composite repoint_simple absorb absorb_metadata absorb_ids latest merge_genres str
merging = tt

abbrev merged_entry : CatalogEntry
merged_entry = record kept {
  isrc = some "USABC1234567";
  key = some "8A";
  key_source = some "rekordbox";
  genres = "Techno" ∷ "House" ∷ [];
  has_preview = true;
  scope = shared;
  owner_id = none;
  deezer_searched_at = some 5;
}

abbrev after : Db
after = record {
  catalog = merged_entry ∷ [];
  catalog_artists =
      record { catalog_id = 1; artist_id = 100; role = none; position = none }
      ∷ record { catalog_id = 1; artist_id = 101; role = none; position = none }
      ∷ [];
  user_tracks = record { user_id = 7; catalog_id = 1; source = none; avis = some "liked" } ∷ [];
  collection_items =
      record { id = 1; collection_id = 5; item_type = track; item_id = some 1; position = 0 }
      ∷ record { id = 2; collection_id = 5; item_type = artist; item_id = some 2; position = 1 }
      ∷ [];
  user_radar_state =
      record { user_id = 7; catalog_id = 1; status = "added"; updated_at = none } ∷ [];
  set_tracks = record { id = 1; catalog_id = some 1 } ∷ [];
  radar_tracks = record { id = 1; catalog_id = none } ∷ [];
  artist_activity = [];
  radar_trends = [];
  user_opinions =
      record { user_id = 7; entity_type = track; entity_key = str 1; opinion = "liked" } ∷ [];
  catalog_albums = [];
  track_embeddings = [];
}

merges : merge_catalog_entries 1 2 db ≡ done after
unfolding merging
merges = refl

no_canonical : merge_catalog_entries 9 2 db ≡ value_error
unfolding merging
no_canonical = refl

duplicates : AreDuplicates 1 2 db kept dropped
duplicates = record { apart = omega arith; loser_found = refl; canonical_found = refl }

merge-Unreferenced_example : (d : Db) × (merge_catalog_entries 1 2 db ≡ done d) × Unreferenced 2 d
merge-Unreferenced_example = merge-Unreferenced 1 2 db kept dropped duplicates

merge-KeepsLinks_example : (d : Db) × (merge_catalog_entries 1 2 db ≡ done d) × KeepsLinks 1 2 db d
merge-KeepsLinks_example = merge-KeepsLinks 1 2 db kept dropped duplicates

keys : HasKeys db
keys = record {
  catalog_artists = (λ c own. ground arith, (λ c own. ground arith, (λ c own. refl, tt)));
  user_tracks = (λ c own. ground arith, (λ c own. refl, tt));
  collection_items = (λ c own. ground arith, (λ c own. refl, tt));
  user_radar_state = (λ c own. refl, tt);
  user_opinions = (λ c own. refl, tt);
}

merge-HasKeys_example : (d : Db) × (merge_catalog_entries 1 2 db ≡ done d) × HasKeys d
merge-HasKeys_example = merge-HasKeys 1 2 db kept dropped duplicates keys

merge-avis_example :
    (d : Db) × (merge_catalog_entries 1 2 db ≡ done d)
    × ((u : ℕ)
        → avis_of 1 u d.user_tracks
          ≡ or_else (avis_of 1 u db.user_tracks) (avis_of 2 u db.user_tracks))
merge-avis_example = merge-avis 1 2 db kept dropped duplicates

merge-loses_albums_example :
    (d : Db) × (merge_catalog_entries 1 2 db ≡ done d)
    × ((a : ℕ)
        → any (λ r. r.catalog_id == 1 && r.album_id == a) d.catalog_albums
          ≡ any (λ r. r.catalog_id == 1 && r.album_id == a) db.catalog_albums)
    × (count (λ r. r.catalog_id == 1) d.track_embeddings
        ≡ count (λ r. r.catalog_id == 1) db.track_embeddings)
merge-loses_albums_example = merge-loses_albums 1 2 db kept dropped duplicates

merge_idempotent_example : merge_catalog_entries 1 2 after ≡ done after
merge_idempotent_example = merge_idempotent 1 2 db after merges
