-- ===== src/Catalog/Merge/Lost.antt =====
-- The tables that reference the catalog and that the merge does not repoint: catalog_albums and
-- track_embeddings (server/api/models/album.py and embedding.py). Their foreign keys cascade.
use diggy.Prelude.{
  ℕ, ◌≡◌, refl, ◌&&◌, arith, ◌==◌, any, count, any-delete_where_disjoint, List, [], ◌∷◌,
  delete_where, ◌≢◌,
}
use diggy.Catalog.Rows.{CatalogEntry, TrackEmbedding, Db}
use diggy.Catalog.Merge.{done, merge_catalog_entries}
use diggy.Catalog.Merge.Tables.{folded, AreDuplicates, merge-eq-folded}

count-embeddings :
    (c l : ℕ) (rows : List TrackEmbedding)
    → c ≢ l
    → count (λ r. r.catalog_id == c) (delete_where (λ r. r.catalog_id == l) rows)
      ≡ count (λ r. r.catalog_id == c) rows
count-embeddings c l [] apart = refl
count-embeddings c l (r ∷ rows) apart = ground (arith, count-embeddings c l rows apart)

-- An album that only the loser is on, and every embedding of the loser, is lost: after the merge of
-- two rows that exist the canonical is on no album that it was not on before, and has no more
-- embeddings than before.
pub merge-loses_albums :
    (c l : ℕ) (db : Db) (canonical loser : CatalogEntry)
    → AreDuplicates c l db canonical loser
    → (after : Db) × (merge_catalog_entries c l db ≡ done after)
      × ((a : ℕ)
          → any (λ r. r.catalog_id == c && r.album_id == a) after.catalog_albums
            ≡ any (λ r. r.catalog_id == c && r.album_id == a) db.catalog_albums)
      × (count (λ r. r.catalog_id == c) after.track_embeddings
          ≡ count (λ r. r.catalog_id == c) db.track_embeddings)
merge-loses_albums c l db canonical loser h =
    let apart = h.apart in
    (
      folded c l loser db,
      merge-eq-folded c l db canonical loser h,
      λ a.
          any-delete_where_disjoint (λ r. r.catalog_id == l)
            (λ r. r.catalog_id == c && r.album_id == a) db.catalog_albums (λ x k. ground arith),
      count-embeddings c l db.track_embeddings apart,
    )
