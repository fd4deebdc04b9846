-- ===== src/Artists/Tests.antt =====
-- Runs of the merge of two artists, and the hypotheses of its theorems at concrete artists.
use diggy.Prelude.{String, ◌≡◌, refl, ◌||◌, [], ◌∷◌, arith, some}
use diggy.Catalog.Rows.{UserOpinion, CollectionItem, EntityType}
use diggy.Catalog.Repoint.{repoint_composite}
use diggy.Artists.{
  Artist, ArtistDb, MergeReport, has_alias, taken, move_aliases, ensure_alias, merged_aliases,
  merged, same_artist, source_not_found, delete_artist, fold_artist, merge_artist_into,
}
use diggy.Artists.Moved.{
  AreTwins, KeepsArtistLinks, IsForgotten, merge_artist_into-KeepsArtistLinks,
  merge_artist_into-IsForgotten,
}
use diggy.Artists.Names.{is_added, merge_artist_into-taken}
use diggy.Artists.Unique.{HasUniqueAliases, merge_artist_into-HasUniqueAliases}

abbrev same_text : String → String
same_text s = s

abbrev target : Artist
target = record { id = 1; name = "nick leon"; normalized_name = "nick leon" }

abbrev source : Artist
source = record { id = 2; name = "nick león"; normalized_name = "nick león" }

-- a like and an item of a collection, both of the source
abbrev opinion : UserOpinion
opinion = record {
  user_id = 5;
  entity_type = EntityType.artist;
  entity_key = b'2' ∷ [];
  opinion = "liked";
}

abbrev item : CollectionItem
item = record {
  id = 1;
  collection_id = 1;
  item_type = EntityType.artist;
  item_id = some 2;
  position = 0;
}

-- Both have an alias, the source's "leon" is one the target has, and both play set 7.
abbrev db : ArtistDb
db = record {
  artists = target ∷ source ∷ [];
  artist_aliases =
      record { artist_id = 1; alias = "Leon"; normalized_alias = "leon" }
      ∷ record { artist_id = 2; alias = "N. L."; normalized_alias = "n. l." }
      ∷ record { artist_id = 2; alias = "Nick Leon"; normalized_alias = "nick leon" }
      ∷ [];
  set_artists =
      record { set_id = 7; artist_id = 1; role = some "dj" }
      ∷ record { set_id = 7; artist_id = 2; role = some "dj" }
      ∷ record { set_id = 8; artist_id = 2; role = some "dj" }
      ∷ [];
  catalog_artists = [];
  followed_artists = record { user_id = 5; artist_id = 2 } ∷ [];
  artist_activity = [];
  artist_cohort = [];
  albums = [];
  channels = [];
  user_opinions = opinion ∷ [];
  collection_items = item ∷ [];
}

abbrev after : ArtistDb
after = record {
  artists = target ∷ [];
  artist_aliases =
      record { artist_id = 1; alias = "Leon"; normalized_alias = "leon" }
      ∷ record { artist_id = 1; alias = "N. L."; normalized_alias = "n. l." }
      ∷ record { artist_id = 1; alias = "nick león"; normalized_alias = "nick león" }
      ∷ [];
  set_artists =
      record { set_id = 7; artist_id = 1; role = some "dj" }
      ∷ record { set_id = 8; artist_id = 1; role = some "dj" }
      ∷ [];
  catalog_artists = [];
  followed_artists = [];
  artist_activity = [];
  artist_cohort = [];
  albums = [];
  channels = [];
  user_opinions = opinion ∷ [];
  collection_items = item ∷ [];
}

merging : Unit {0}
unfolding merge_artist_into fold_artist delete_artist merged_aliases move_aliases ensure_alias
    repoint_composite
merging = tt

merges :
    merge_artist_into same_text 2 1 db
    ≡ merged after (record { merged_source = 2; into = 1; name = "nick león" })
unfolding merging
merges = refl

self_merge : merge_artist_into same_text 2 2 db ≡ same_artist
unfolding merging
self_merge = refl

no_source : merge_artist_into same_text 9 1 db ≡ source_not_found
unfolding merging
no_source = refl

twins : AreTwins source target db
twins = record { apart = omega arith; source_found = refl; target_found = refl }

merge_artist_into-KeepsArtistLinks_example :
    (d : ArtistDb) × (report : MergeReport) × (merge_artist_into same_text 2 1 db ≡ merged d report)
    × KeepsArtistLinks 1 2 db d
merge_artist_into-KeepsArtistLinks_example =
    merge_artist_into-KeepsArtistLinks same_text source target db twins

merge_artist_into-IsForgotten_example :
    (d : ArtistDb) × (report : MergeReport) × (merge_artist_into same_text 2 1 db ≡ merged d report)
    × IsForgotten 1 2 db d
merge_artist_into-IsForgotten_example =
    merge_artist_into-IsForgotten same_text source target db twins

merge_artist_into-taken_example :
    (d : ArtistDb) × (report : MergeReport) × (merge_artist_into same_text 2 1 db ≡ merged d report)
    × ((n : String)
        → taken target d.artist_aliases n
          ≡ taken target db.artist_aliases n
            || has_alias 2 n db.artist_aliases
            || is_added same_text source target db.artist_aliases n)
merge_artist_into-taken_example = merge_artist_into-taken same_text source target db twins

unique : HasUniqueAliases db.artist_aliases
unique = (refl, (refl, (refl, tt)))

merge_artist_into-HasUniqueAliases_example :
    (d : ArtistDb) × (report : MergeReport) × (merge_artist_into same_text 2 1 db ≡ merged d report)
    × HasUniqueAliases d.artist_aliases
merge_artist_into-HasUniqueAliases_example =
    merge_artist_into-HasUniqueAliases same_text source target db twins unique
