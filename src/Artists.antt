-- ===== src/Artists.antt =====
-- `merge_artist_into` of server/workers/artist_merge.py over every table that references
-- artists.id (server/api/models), with the foreign keys deciding what the final DELETE of the
-- source takes with it, and over the two that name an artist without a foreign key. Columns that the code never reads are left out, the serial ids of aliases
-- among them. `normalize` of server/api/utils.py, which works by regular expressions and Unicode
-- tables, is a parameter.
pub mod Moved
pub mod Names
pub mod Unique
mod Tests
use diggy.Prelude.{
  ℕ, String, Bool, ◌&&◌, ◌||◌, Option, none, some, List, [], ◌∷◌, ◌++◌, ◌≡◌, refl, str_eq, ◌==◌,
  if◌then◌else◌, any, find?, delete_where, update_where,
}
use diggy.Catalog.Rows.{CatalogArtist, CollectionItem, UserOpinion}
use diggy.Catalog.Keys.{one_by_id, same_id}
use diggy.Catalog.Repoint.{Linked, repoint_composite}
use diggy.Cohort.Rows.{ArtistCohort, SetArtist, FollowedArtist}

pub record Artist : Type 0 where
  pub id : ℕ
  pub name : String
  pub normalized_name : String

pub record ArtistAlias : Type 0 where
  pub artist_id : ℕ
  pub alias : String
  pub normalized_alias : String

pub record ArtistActivity : Type 0 where
  pub id : ℕ
  pub artist_id : ℕ

-- a row of albums or channels
pub record ArtistReference : Type 0 where
  pub id : ℕ
  pub artist_id : Option ℕ

pub record ArtistDb : Type 0 where
  pub artists : List Artist
  pub artist_aliases : List ArtistAlias
  pub set_artists : List SetArtist
  pub catalog_artists : List CatalogArtist
  pub followed_artists : List FollowedArtist
  pub artist_activity : List ArtistActivity
  pub artist_cohort : List ArtistCohort
  pub albums : List ArtistReference
  pub channels : List ArtistReference
  pub user_opinions : List UserOpinion
  pub collection_items : List CollectionItem

-- The two tables of links, owned by the artist.
abbrev pub set_artists_link : Linked SetArtist
set_artists_link = record {
  owns = λ a r. r.artist_id == a;
  other = λ r. r.set_id;
  set_owner = λ r a. record r { artist_id = a };
  owns_one = λ r c d h. one_by_id r.artist_id c d h;
  owns_set = λ r l c d h. same_id c d;
  other_set = λ r c. refl;
}

abbrev pub artist_catalog_link : Linked CatalogArtist
artist_catalog_link = record {
  owns = λ a r. r.artist_id == a;
  other = λ r. r.catalog_id;
  set_owner = λ r a. record r { artist_id = a };
  owns_one = λ r c d h. one_by_id r.artist_id c d h;
  owns_set = λ r l c d h. same_id c d;
  other_set = λ r c. refl;
}

-- the artist `a` has an alias that normalizes to `n`
abbrev pub has_alias : ℕ → String → List ArtistAlias → Bool
has_alias a n rows = any (λ r. r.artist_id == a && str_eq r.normalized_alias n) rows

abbrev pub is_alias : String → List ArtistAlias → Bool
is_alias n rows = any (λ r. str_eq r.normalized_alias n) rows

-- `_move_aliases`: an alias that is taken on the target is dropped, the rest move.
abbrev pub taken : Artist → List ArtistAlias → String → Bool
taken target rows n = str_eq target.normalized_name n || has_alias target.id n rows

unfoldable pub move_aliases : ℕ → Artist → List ArtistAlias → List ArtistAlias
move_aliases source_id target rows =
    update_where (λ r. r.artist_id == source_id) (λ r. record r { artist_id = target.id })
      (delete_where (λ r. r.artist_id == source_id && taken target rows r.normalized_alias) rows)

-- `_ensure_alias_sync`
unfoldable pub ensure_alias : (String → String) → ℕ → String → List ArtistAlias → List ArtistAlias
ensure_alias normalize artist_id alias_name rows =
    if str_eq (normalize alias_name) "" || is_alias (normalize alias_name) rows
    then rows
    else rows
      ++ (record {
        artist_id = artist_id;
        alias = alias_name;
        normalized_alias = normalize alias_name;
      }
          ∷ [])

abbrev pub refers_to : ℕ → ArtistReference → Bool
refers_to a r = elim r.artist_id [ none ↦ Bool.false | some i ↦ i == a ]

-- ON DELETE SET NULL
abbrev pub unset_artist : ℕ → List ArtistReference → List ArtistReference
unset_artist a rows = update_where (refers_to a) (λ r. record r { artist_id = none }) rows

-- DELETE FROM artists WHERE id = a: albums and channels are set to NULL, user_opinions and
-- collection_items have no foreign key and stay, the rest cascades.
unfoldable pub delete_artist : ℕ → ArtistDb → ArtistDb
delete_artist a db = record {
  artists = delete_where (λ r. r.id == a) db.artists;
  artist_aliases = delete_where (λ r. r.artist_id == a) db.artist_aliases;
  set_artists = delete_where (λ r. r.artist_id == a) db.set_artists;
  catalog_artists = delete_where (λ r. r.artist_id == a) db.catalog_artists;
  followed_artists = delete_where (λ r. r.artist_id == a) db.followed_artists;
  artist_activity = delete_where (λ r. r.artist_id == a) db.artist_activity;
  artist_cohort = delete_where (λ r. r.artist_id == a) db.artist_cohort;
  albums = unset_artist a db.albums;
  channels = unset_artist a db.channels;
  user_opinions = db.user_opinions;
  collection_items = db.collection_items;
}

pub record MergeReport : Type 0 where
  pub merged_source : ℕ
  pub into : ℕ
  pub name : String

pub data ArtistOutcome : Type 0 where
  merged : ArtistDb → MergeReport → ArtistOutcome
  same_artist source_not_found target_not_found : ArtistOutcome

-- The aliases before the DELETE.
unfoldable pub merged_aliases :
    (String → String) → Artist → Artist → List ArtistAlias → List ArtistAlias
merged_aliases normalize source target rows =
    if str_eq (normalize source.name) (normalize target.name)
    then move_aliases source.id target rows
    else ensure_alias normalize target.id source.name (move_aliases source.id target rows)

unfoldable pub fold_artist : (String → String) → Artist → Artist → ArtistDb → ArtistDb
fold_artist normalize source target db = delete_artist source.id (record db {
  set_artists = repoint_composite set_artists_link target.id source.id db.set_artists;
  catalog_artists = repoint_composite artist_catalog_link target.id source.id db.catalog_artists;
  artist_aliases = merged_aliases normalize source target db.artist_aliases;
})

abbrev pub merge_found :
    (String → String) → Option Artist → Option Artist → ArtistDb → ArtistOutcome
merge_found normalize none target db = source_not_found
merge_found normalize (some source) none db = target_not_found
merge_found normalize (some source) (some target) db =
    merged (fold_artist normalize source target db)
      (record { merged_source = source.id; into = target.id; name = source.name })

unfoldable pub merge_artist_into : (String → String) → ℕ → ℕ → ArtistDb → ArtistOutcome
merge_artist_into normalize source_id target_id db =
    if source_id == target_id
    then same_artist
    else merge_found normalize (find? (λ r. r.id == source_id) db.artists)
        (find? (λ r. r.id == target_id) db.artists) db
