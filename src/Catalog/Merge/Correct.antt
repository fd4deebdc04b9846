-- ===== src/Catalog/Merge/Correct.antt =====
-- The merge of two existing rows succeeds, leaves nothing that refers to the loser, keeps every
-- link of either row, and keeps the primary keys unique.
use diggy.Prelude.{
  ℕ, ◌+◌, ◌≡◌, ◌≢◌, refl, ◌∙◌, false, List, ◌==◌, any, count, any-delete_where_self,
  any-update_where,
}
use diggy.Catalog.Rows.{CatalogEntry, Reference, Db}
use diggy.Catalog.Repoint.{linked, refers, repoint_simple}
use diggy.Catalog.Repoint.Links.{
  HasUniqueKeys, repoint-unowned, link_after, repoint-link_after, delete-link_after,
  repoint-HasUniqueKeys, HasUniqueKeys-delete_where, HasUniqueKeys-update_where,
  count-repoint_simple,
}
use diggy.Catalog.Keys.{
  catalog_artists_link, user_tracks_link, collection_items_link, user_radar_state_link,
  user_opinions_link, is_item, is_opinion,
}
use diggy.Catalog.Absorb.{absorb_ids}
use diggy.Catalog.Merge.{done, fill_avis, repoint_all, has_id, unset, merge_catalog_entries}
use diggy.Catalog.Merge.Tables.{
  folded, AreDuplicates, merge-eq-folded, unset-unreferred, count-unset, linked-fill_avis,
}

-- No table holds the id.
pub record Unreferenced (l : ℕ) (db : Db) : Type 0 where
  pub catalog : any (has_id l) db.catalog ≡ false
  pub catalog_artists : any (λ r. r.catalog_id == l) db.catalog_artists ≡ false
  pub user_tracks : any (λ r. r.catalog_id == l) db.user_tracks ≡ false
  pub collection_items : any (is_item l) db.collection_items ≡ false
  pub user_radar_state : any (λ r. r.catalog_id == l) db.user_radar_state ≡ false
  pub set_tracks : any (refers l) db.set_tracks ≡ false
  pub radar_tracks : any (refers l) db.radar_tracks ≡ false
  pub artist_activity : any (refers l) db.artist_activity ≡ false
  pub radar_trends : any (λ r. r.catalog_id == l) db.radar_trends ≡ false
  pub user_opinions : any (is_opinion l) db.user_opinions ≡ false
  pub catalog_albums : any (λ r. r.catalog_id == l) db.catalog_albums ≡ false
  pub track_embeddings : any (λ r. r.catalog_id == l) db.track_embeddings ≡ false

-- Whatever linked an artist, a user, a collection or an opinion to either row links it to the
-- canonical, nothing is linked to the loser, other entries keep their links, and every plain
-- reference is still there.
pub record KeepsLinks (c l : ℕ) (before after : Db) : Type 0 where
  pub catalog_artists :
      (e a : ℕ)
      → linked catalog_artists_link e a after.catalog_artists
        ≡ link_after catalog_artists_link c l before.catalog_artists e a
  pub user_tracks :
      (e u : ℕ)
      → linked user_tracks_link e u after.user_tracks
        ≡ link_after user_tracks_link c l before.user_tracks e u
  pub collection_items :
      (e k : ℕ)
      → linked collection_items_link e k after.collection_items
        ≡ link_after collection_items_link c l before.collection_items e k
  pub user_radar_state :
      (e u : ℕ)
      → linked user_radar_state_link e u after.user_radar_state
        ≡ link_after user_radar_state_link c l before.user_radar_state e u
  pub user_opinions :
      (e u : ℕ)
      → linked user_opinions_link e u after.user_opinions
        ≡ link_after user_opinions_link c l before.user_opinions e u
  pub set_tracks :
      count (refers c) after.set_tracks
      ≡ count (refers c) before.set_tracks + count (refers l) before.set_tracks
  pub radar_tracks :
      count (refers c) after.radar_tracks
      ≡ count (refers c) before.radar_tracks + count (refers l) before.radar_tracks
  pub artist_activity :
      count (refers c) after.artist_activity
      ≡ count (refers c) before.artist_activity + count (refers l) before.artist_activity

-- The primary keys and the application-level keys of the five tables of links.
pub record HasKeys (db : Db) : Type 0 where
  pub catalog_artists : HasUniqueKeys catalog_artists_link db.catalog_artists
  pub user_tracks : HasUniqueKeys user_tracks_link db.user_tracks
  pub collection_items : HasUniqueKeys collection_items_link db.collection_items
  pub user_radar_state : HasUniqueKeys user_radar_state_link db.user_radar_state
  pub user_opinions : HasUniqueKeys user_opinions_link db.user_opinions

module _ (c l : ℕ) (db : Db) (loser : CatalogEntry) (apart : c ≢ l) where
  pub folded-Unreferenced : Unreferenced l (folded c l loser db)
  unfolding repoint_all absorb_ids
  folded-Unreferenced = record {
    catalog =
        any-update_where (has_id c) (has_id l) (λ e. absorb_ids e loser) _ (λ x. refl)
        ∙ any-delete_where_self (has_id l) _;
    catalog_artists = any-delete_where_self (λ r. r.catalog_id == l) _;
    user_tracks = repoint-unowned user_tracks_link c l apart _;
    collection_items = repoint-unowned collection_items_link c l apart _;
    user_radar_state = any-delete_where_self (λ r. r.catalog_id == l) _;
    set_tracks = unset-unreferred l (repoint_simple c l db.set_tracks);
    radar_tracks = unset-unreferred l (repoint_simple c l db.radar_tracks);
    artist_activity = unset-unreferred l (repoint_simple c l db.artist_activity);
    radar_trends = any-delete_where_self (λ r. r.catalog_id == l) _;
    user_opinions = repoint-unowned user_opinions_link c l apart _;
    catalog_albums = any-delete_where_self (λ r. r.catalog_id == l) _;
    track_embeddings = any-delete_where_self (λ r. r.catalog_id == l) _;
  }

  count-references :
      (rows : List Reference)
      → count (refers c) (unset l (repoint_simple c l rows))
        ≡ count (refers c) rows + count (refers l) rows
  count-references rows =
      count-unset c l (repoint_simple c l rows) apart ∙ count-repoint_simple c l apart rows

  folded-KeepsLinks : KeepsLinks c l db (folded c l loser db)
  unfolding repoint_all
  folded-KeepsLinks = record {
    catalog_artists = delete-link_after catalog_artists_link c l apart db.catalog_artists;
    user_tracks = λ e u.
        repoint-link_after user_tracks_link c l apart (fill_avis c l db.user_tracks) e u
        ∙ cc (
          linked-fill_avis c l c u db.user_tracks,
          linked-fill_avis c l l u db.user_tracks,
          linked-fill_avis c l e u db.user_tracks,
        );
    collection_items = repoint-link_after collection_items_link c l apart db.collection_items;
    user_radar_state = delete-link_after user_radar_state_link c l apart db.user_radar_state;
    user_opinions = repoint-link_after user_opinions_link c l apart db.user_opinions;
    set_tracks = count-references db.set_tracks;
    radar_tracks = count-references db.radar_tracks;
    artist_activity = count-references db.artist_activity;
  }

  folded-HasKeys : HasKeys db → HasKeys (folded c l loser db)
  unfolding repoint_all fill_avis
  folded-HasKeys h = record {
    catalog_artists =
        HasUniqueKeys-delete_where catalog_artists_link (λ r. r.catalog_id == l) _
          (repoint-HasUniqueKeys catalog_artists_link c l apart _ h.catalog_artists);
    user_tracks =
        repoint-HasUniqueKeys user_tracks_link c l apart _ (
          HasUniqueKeys-update_where user_tracks_link _ _ (λ r k. refl) (λ r. refl) _
            h.user_tracks);
    collection_items = repoint-HasUniqueKeys collection_items_link c l apart _ h.collection_items;
    user_radar_state =
        HasUniqueKeys-delete_where user_radar_state_link (λ r. r.catalog_id == l) _
          (repoint-HasUniqueKeys user_radar_state_link c l apart _ h.user_radar_state);
    user_opinions = repoint-HasUniqueKeys user_opinions_link c l apart _ h.user_opinions;
  }

module _ (c l : ℕ) (db : Db) (canonical loser : CatalogEntry) where
  -- The merge of two rows that exist succeeds, and afterwards no row of any table that references
  -- the catalog refers to the loser, nor is the loser itself there.
  pub merge-Unreferenced :
      AreDuplicates c l db canonical loser
      → (after : Db) × (merge_catalog_entries c l db ≡ done after) × Unreferenced l after
  merge-Unreferenced h = (
    folded c l loser db,
    merge-eq-folded c l db canonical loser h,
    folded-Unreferenced c l db loser h.apart,
  )

  -- The merge of two rows that exist succeeds; the canonical is then linked to exactly the artists,
  -- owners, collections, radar states and opinions that were linked to it or to the loser, the loser
  -- to none, any third entry to those it was, and the canonical has all plain references of both.
  pub merge-KeepsLinks :
      AreDuplicates c l db canonical loser
      → (after : Db) × (merge_catalog_entries c l db ≡ done after) × KeepsLinks c l db after
  merge-KeepsLinks h = (
    folded c l loser db,
    merge-eq-folded c l db canonical loser h,
    folded-KeepsLinks c l db loser h.apart,
  )

  -- The merge of two rows that exist keeps the keys unique: if no artist, user or collection was
  -- linked twice to one entry before, and no user had two opinions of one track, none is after.
  pub merge-HasKeys :
      AreDuplicates c l db canonical loser
      → HasKeys db
      → (after : Db) × (merge_catalog_entries c l db ≡ done after) × HasKeys after
  merge-HasKeys h k = (
    folded c l loser db,
    merge-eq-folded c l db canonical loser h,
    folded-HasKeys c l db loser h.apart k,
  )
