-- ===== src/Artists/Moved.antt =====
-- The links that a merge of two artists moves, and what its DELETE takes.
use diggy.Prelude.{
  ℕ, String, ◌≡◌, ◌≢◌, refl, false, ◌&&◌, some, List, [], ◌∷◌, arith, ◌==◌, any, find?,
  any-delete_where_self, any-delete_where_disjoint,
}
use diggy.Catalog.Repoint.{linked}
use diggy.Catalog.Repoint.Links.{link_after, delete-link_after}
use diggy.Artists.{
  Artist, ArtistReference, ArtistDb, set_artists_link, artist_catalog_link, refers_to, merged,
  delete_artist, fold_artist, merge_artist_into, unset_artist, MergeReport,
}

-- Two different artists, both in the table.
pub record AreTwins (source target : Artist) (db : ArtistDb) : Type 0 where
  pub apart : target.id ≢ source.id
  pub source_found : find? (λ r. r.id == source.id) db.artists ≡ some source
  pub target_found : find? (λ r. r.id == target.id) db.artists ≡ some target

-- The target has the links of both artists, the source has none, and any third artist has those it
-- had.
pub record KeepsArtistLinks (t s : ℕ) (before after : ArtistDb) : Type 0 where
  pub set_artists :
      (a k : ℕ)
      → linked set_artists_link a k after.set_artists
        ≡ link_after set_artists_link t s before.set_artists a k
  pub catalog_artists :
      (a k : ℕ)
      → linked artist_catalog_link a k after.catalog_artists
        ≡ link_after artist_catalog_link t s before.catalog_artists a k

-- No table with a foreign key holds the artist `s`, what the target has in the tables that cascade
-- unmoved is what it had, and the tables without a foreign key are untouched.
pub record IsForgotten (t s : ℕ) (before after : ArtistDb) : Type 0 where
  pub artists : any (λ r. r.id == s) after.artists ≡ false
  pub artist_aliases : any (λ r. r.artist_id == s) after.artist_aliases ≡ false
  pub set_artists : any (λ r. r.artist_id == s) after.set_artists ≡ false
  pub catalog_artists : any (λ r. r.artist_id == s) after.catalog_artists ≡ false
  pub followed_artists : any (λ r. r.artist_id == s) after.followed_artists ≡ false
  pub artist_activity : any (λ r. r.artist_id == s) after.artist_activity ≡ false
  pub artist_cohort : any (λ r. r.artist_id == s) after.artist_cohort ≡ false
  pub albums : any (refers_to s) after.albums ≡ false
  pub channels : any (refers_to s) after.channels ≡ false
  pub same_followers :
      (u : ℕ)
      → any (λ r. r.artist_id == t && r.user_id == u) after.followed_artists
        ≡ any (λ r. r.artist_id == t && r.user_id == u) before.followed_artists
  pub same_cohort :
      any (λ r. r.artist_id == t) after.artist_cohort
      ≡ any (λ r. r.artist_id == t) before.artist_cohort
  pub same_opinions : after.user_opinions ≡ before.user_opinions
  pub same_items : after.collection_items ≡ before.collection_items

pub merge-eq-fold_artist :
    (normalize : String → String) (source target : Artist) (db : ArtistDb)
    → AreTwins source target db
    → merge_artist_into normalize source.id target.id db
      ≡ merged
          (fold_artist normalize source target db)
          (record { merged_source = source.id; into = target.id; name = source.name })
unfolding merge_artist_into
merge-eq-fold_artist normalize source target db h =
    let apart = h.apart in
    let differ : (source.id == target.id) ≡ false = ground arith in
    rw (differ, h.source_found, h.target_found) refl

unset-unreferred :
    (s : ℕ) (rows : List ArtistReference) → any (refers_to s) (unset_artist s rows) ≡ false
unset-unreferred s [] = refl
unset-unreferred s (r ∷ rows) = ground (arith, unset-unreferred s rows)

module _ (normalize : String → String) (source target : Artist) (db : ArtistDb) where
  fold_artist-KeepsArtistLinks :
      target.id ≢ source.id
      → KeepsArtistLinks target.id source.id db (fold_artist normalize source target db)
  unfolding fold_artist delete_artist
  fold_artist-KeepsArtistLinks apart = record {
    set_artists = delete-link_after set_artists_link target.id source.id apart db.set_artists;
    catalog_artists =
        delete-link_after artist_catalog_link target.id source.id apart db.catalog_artists;
  }

  fold_artist-IsForgotten :
      target.id ≢ source.id
      → IsForgotten target.id source.id db (fold_artist normalize source target db)
  unfolding fold_artist delete_artist
  fold_artist-IsForgotten apart =
      let t = target.id in
      let s = source.id in
      record {
        artists = any-delete_where_self (λ r. r.id == s) _;
        artist_aliases = any-delete_where_self (λ r. r.artist_id == s) _;
        set_artists = any-delete_where_self (λ r. r.artist_id == s) _;
        catalog_artists = any-delete_where_self (λ r. r.artist_id == s) _;
        followed_artists = any-delete_where_self (λ r. r.artist_id == s) _;
        artist_activity = any-delete_where_self (λ r. r.artist_id == s) _;
        artist_cohort = any-delete_where_self (λ r. r.artist_id == s) _;
        albums = unset-unreferred s db.albums;
        channels = unset-unreferred s db.channels;
        same_followers = λ u.
            any-delete_where_disjoint (λ r. r.artist_id == s)
              (λ r. r.artist_id == t && r.user_id == u) db.followed_artists (λ x h. ground arith);
        same_cohort =
            any-delete_where_disjoint (λ r. r.artist_id == s) (λ r. r.artist_id == t)
              db.artist_cohort (λ x h. ground arith);
        same_opinions = refl;
        same_items = refl;
      }

  -- The merge of two artists that exist succeeds; the target is then linked to exactly the sets and
  -- the catalog entries that either artist was linked to, and any third artist to those it was.
  pub merge_artist_into-KeepsArtistLinks :
      AreTwins source target db
      → (after : ArtistDb) × (report : MergeReport) × (merge_artist_into normalize source.id
            target.id db
          ≡ merged after report)
        × KeepsArtistLinks target.id source.id db after
  merge_artist_into-KeepsArtistLinks h = (
    fold_artist normalize source target db,
    record { merged_source = source.id; into = target.id; name = source.name },
    merge-eq-fold_artist normalize source target db h,
    fold_artist-KeepsArtistLinks h.apart,
  )

  -- The merge of two artists that exist leaves no row that refers to the source in the artists and
  -- the eight tables with a foreign key to them, and does not carry over what follows it: the target
  -- keeps the followers and the place in the cohort that it had before, and those of the source are
  -- lost. Opinions and items of collections, which name an artist without a foreign key, stay as
  -- they are, those that name the source included.
  pub merge_artist_into-IsForgotten :
      AreTwins source target db
      → (after : ArtistDb) × (report : MergeReport) × (merge_artist_into normalize source.id
            target.id db
          ≡ merged after report)
        × IsForgotten target.id source.id db after
  merge_artist_into-IsForgotten h = (
    fold_artist normalize source target db,
    record { merged_source = source.id; into = target.id; name = source.name },
    merge-eq-fold_artist normalize source target db h,
    fold_artist-IsForgotten h.apart,
  )
