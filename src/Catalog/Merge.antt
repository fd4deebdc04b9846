-- ===== src/Catalog/Merge.antt =====
-- `merge_catalog_entries` of server/workers/catalog_merge.py over the whole database, with the
-- foreign keys of server/api/models deciding what the final DELETE of the loser takes with it.
pub mod Tables
pub mod Correct
pub mod Lost
pub mod Avis
pub mod Again
mod Tests
use diggy.Prelude.{
  ℕ, String, Bool, ◌&&◌, Option, none, some, List, ◌==◌, if◌then◌else◌, or_else, any, find?,
  delete_where, update_where,
}
use diggy.Catalog.Rows.{CatalogEntry, UserTrack, Reference, Db}
use diggy.Catalog.Repoint.{linked, repoint_composite, refers, repoint_simple}
use diggy.Catalog.Keys.{
  catalog_artists_link, user_tracks_link, collection_items_link, user_radar_state_link,
  user_opinions_link,
}
use diggy.Catalog.Absorb.{absorb_metadata, absorb_ids}

pub data Outcome : Type 0 where
  done : Db → Outcome
  value_error integrity_error : Outcome

-- (SELECT l.avis FROM user_tracks l WHERE l.user_id = user AND l.catalog_id = loser)
unfoldable pub avis_of : ℕ → ℕ → List UserTrack → Option String
avis_of c user rows = elim (find? (λ r. r.catalog_id == c && r.user_id == user) rows) [
  | none ↦ none
  | some r ↦ r.avis
]

-- The raw UPDATE that fills the canonical's avis where the same user owns both rows.
unfoldable pub fill_avis : ℕ → ℕ → List UserTrack → List UserTrack
fill_avis canonical loser rows =
    update_where (λ r. r.catalog_id == canonical && linked user_tracks_link loser r.user_id rows)
      (λ r. record r { avis = or_else r.avis (avis_of loser r.user_id rows) }) rows

-- Every statement up to the metadata union, in the code's order.
unfoldable pub repoint_all : ℕ → ℕ → Db → Db
repoint_all canonical loser db = record db {
  catalog_artists = repoint_composite catalog_artists_link canonical loser db.catalog_artists;
  user_tracks =
      repoint_composite user_tracks_link canonical loser (fill_avis canonical loser db.user_tracks);
  collection_items = repoint_composite collection_items_link canonical loser db.collection_items;
  user_radar_state = repoint_composite user_radar_state_link canonical loser db.user_radar_state;
  set_tracks = repoint_simple canonical loser db.set_tracks;
  radar_tracks = repoint_simple canonical loser db.radar_tracks;
  artist_activity = repoint_simple canonical loser db.artist_activity;
  radar_trends = delete_where (λ r. r.catalog_id == loser) db.radar_trends;
  user_opinions = repoint_composite user_opinions_link canonical loser db.user_opinions;
}

abbrev pub has_id : ℕ → CatalogEntry → Bool
has_id i e = e.id == i

-- ON DELETE SET NULL
abbrev pub unset : ℕ → List Reference → List Reference
unset i rows = update_where (refers i) (λ r. record r { catalog_id = none }) rows

-- DELETE FROM catalog WHERE id = i: user_tracks restricts it, the plain references are set to NULL,
-- and the composite tables, the trends, the albums and the embeddings cascade.
unfoldable pub delete_entry : ℕ → Db → Outcome
delete_entry i db =
    if any (λ r. r.catalog_id == i) db.user_tracks
    then integrity_error
    else done (record db {
      catalog = delete_where (has_id i) db.catalog;
      catalog_artists = delete_where (λ r. r.catalog_id == i) db.catalog_artists;
      user_radar_state = delete_where (λ r. r.catalog_id == i) db.user_radar_state;
      set_tracks = unset i db.set_tracks;
      radar_tracks = unset i db.radar_tracks;
      artist_activity = unset i db.artist_activity;
      radar_trends = delete_where (λ r. r.catalog_id == i) db.radar_trends;
      catalog_albums = delete_where (λ r. r.catalog_id == i) db.catalog_albums;
      track_embeddings = delete_where (λ r. r.catalog_id == i) db.track_embeddings;
    })

-- writes through the ORM object of the canonical row
abbrev pub write_entry : ℕ → (CatalogEntry → CatalogEntry) → Db → Db
write_entry i f db = record db { catalog = update_where (has_id i) f db.catalog }

abbrev and_then : Outcome → (Db → Db) → Outcome
and_then (done db) f = done (f db)
and_then value_error f = value_error
and_then integrity_error f = integrity_error

unfoldable pub fold_entries : ℕ → ℕ → CatalogEntry → Db → Outcome
fold_entries canonical_id loser_id loser db =
    and_then
      (delete_entry loser_id (
        write_entry canonical_id (λ e. absorb_metadata e loser)
          (repoint_all canonical_id loser_id db)))
      (write_entry canonical_id (λ e. absorb_ids e loser))

abbrev with_loser : ℕ → ℕ → Option CatalogEntry → Option CatalogEntry → Db → Outcome
with_loser canonical_id loser_id none canonical db = done db
with_loser canonical_id loser_id (some loser) none db = value_error
with_loser canonical_id loser_id (some loser) (some canonical) db =
    fold_entries canonical_id loser_id loser db

unfoldable pub merge_catalog_entries : ℕ → ℕ → Db → Outcome
merge_catalog_entries canonical_id loser_id db =
    if canonical_id == loser_id
    then done db
    else with_loser canonical_id loser_id (find? (has_id loser_id) db.catalog)
        (find? (has_id canonical_id) db.catalog) db
