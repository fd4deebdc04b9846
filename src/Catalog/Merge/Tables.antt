-- ===== src/Catalog/Merge/Tables.antt =====
-- What a merge of two rows that exist makes of the database, table by table.
use diggy.Prelude.{
  ℕ, ◌≡◌, ◌≢◌, refl, false, ◌&&◌, or_else, any-update_where, some, List, [], ◌∷◌, arith, ◌==◌, any,
  count, find?, delete_where, update_where,
}
use diggy.Catalog.Rows.{CatalogEntry, UserTrack, Reference, Db}
use diggy.Catalog.Repoint.{linked, repoint_composite, refers, repoint_simple}
use diggy.Catalog.Repoint.Links.{repoint-unowned}
use diggy.Catalog.Keys.{user_tracks_link, catalog_artists_link, user_radar_state_link}
use diggy.Catalog.Absorb.{absorb_metadata, absorb_ids}
use diggy.Catalog.Merge.{
  done, avis_of, fill_avis, repoint_all, has_id, unset, delete_entry, fold_entries,
  merge_catalog_entries,
}

-- The database after the merge.
abbrev pub folded : ℕ → ℕ → CatalogEntry → Db → Db
folded c l loser db = record {
  catalog =
      update_where (has_id c) (λ e. absorb_ids e loser)
        (delete_where (has_id l)
          (update_where (has_id c) (λ e. absorb_metadata e loser) db.catalog));
  catalog_artists =
      delete_where (λ r. r.catalog_id == l)
        (repoint_composite catalog_artists_link c l db.catalog_artists);
  user_tracks = repoint_composite user_tracks_link c l (fill_avis c l db.user_tracks);
  collection_items = (repoint_all c l db).collection_items;
  user_radar_state =
      delete_where (λ r. r.catalog_id == l)
        (repoint_composite user_radar_state_link c l db.user_radar_state);
  set_tracks = unset l (repoint_simple c l db.set_tracks);
  radar_tracks = unset l (repoint_simple c l db.radar_tracks);
  artist_activity = unset l (repoint_simple c l db.artist_activity);
  radar_trends =
      delete_where (λ r. r.catalog_id == l) (delete_where (λ r. r.catalog_id == l) db.radar_trends);
  user_opinions = (repoint_all c l db).user_opinions;
  catalog_albums = delete_where (λ r. r.catalog_id == l) db.catalog_albums;
  track_embeddings = delete_where (λ r. r.catalog_id == l) db.track_embeddings;
}

-- Both rows exist, under different ids.
pub record AreDuplicates (c l : ℕ) (db : Db) (canonical loser : CatalogEntry) : Type 0 where
  pub apart : c ≢ l
  pub loser_found : find? (has_id l) db.catalog ≡ some loser
  pub canonical_found : find? (has_id c) db.catalog ≡ some canonical

-- The DELETE is never refused by the foreign key of user_tracks.
pub delete-done :
    (c l : ℕ) (loser : CatalogEntry) (db : Db)
    → c ≢ l
    → fold_entries c l loser db ≡ done (folded c l loser db)
unfolding fold_entries delete_entry repoint_all
delete-done c l loser db apart =
    rw (repoint-unowned user_tracks_link c l apart (fill_avis c l db.user_tracks)) refl

pub merge-eq-folded :
    (c l : ℕ) (db : Db) (canonical loser : CatalogEntry)
    → AreDuplicates c l db canonical loser
    → merge_catalog_entries c l db ≡ done (folded c l loser db)
unfolding merge_catalog_entries
merge-eq-folded c l db canonical loser h =
    let differ : (c == l) ≡ false = ground arith in
    rw (differ, h.loser_found, h.canonical_found) (delete-done c l loser db h.apart)

pub unset-unreferred : (l : ℕ) (rows : List Reference) → any (refers l) (unset l rows) ≡ false
unset-unreferred l [] = refl
unset-unreferred l (r ∷ rows) = ground (arith, unset-unreferred l rows)

pub count-unset :
    (c l : ℕ) (rows : List Reference)
    → c ≢ l
    → count (refers c) (unset l rows) ≡ count (refers c) rows
count-unset c l [] apart = refl
count-unset c l (r ∷ rows) apart = ground (arith, count-unset c l rows apart)

-- The avis is no part of a key.
pub linked-fill_avis :
    (c l d u : ℕ) (rows : List UserTrack)
    → linked user_tracks_link d u (fill_avis c l rows) ≡ linked user_tracks_link d u rows
unfolding fill_avis
linked-fill_avis c l d u rows =
    any-update_where (λ r. r.catalog_id == c && linked user_tracks_link l r.user_id rows)
      (λ r. r.catalog_id == d && r.user_id == u)
      (λ r. record r { avis = or_else r.avis (avis_of l r.user_id rows) }) rows (λ x. refl)
