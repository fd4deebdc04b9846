-- ===== src/Catalog/Rows.antt =====
-- The tables that a catalog merge reads or writes (server/api/models: catalog.py, radar.py,
-- collection.py, opinion.py, album.py, embedding.py, and catalog_id of sets.py and artist.py).
-- Dates, timestamps and the bpm float, which the code only copies and compares, are numbers. A
-- NULL flag or counter is read by the code like False or 0, and is that value here.
use diggy.Prelude.{ℕ, String, Bool, Option, none, some, List, not, str_eq}
use diggy.Prelude.Text.{Text}

pub data Scope : Type 0 where
  shared private : Scope

pub record CatalogEntry : Type 0 where
  pub id : ℕ
  pub title : String
  pub artist : Option String
  pub normalized_key : String
  pub isrc : Option String
  pub deezer_id : Option String
  pub beatport_id : Option String
  pub bpm : Option ℕ
  pub key : Option String
  pub duration_ms : Option ℕ
  pub genres : List String
  pub release_date : Option ℕ
  pub has_artwork : Bool
  pub has_preview : Bool
  pub created_at : Option ℕ
  pub scope : Scope
  pub owner_id : Option ℕ
  pub bpm_source : Option String
  pub key_source : Option String
  pub bpm_analyzed_at : Option ℕ
  pub bpm_analysis_attempts : ℕ
  pub label : Option String
  pub deezer_searched_at : Option ℕ
  pub beatport_searched_at : Option ℕ
  pub deezer_search_attempts : ℕ
  pub beatport_search_attempts : ℕ

pub record CatalogArtist : Type 0 where
  pub catalog_id : ℕ
  pub artist_id : ℕ
  pub role : Option String
  pub position : Option ℕ

pub record UserTrack : Type 0 where
  pub user_id : ℕ
  pub catalog_id : ℕ
  pub source : Option String
  pub avis : Option String

pub record UserRadarState : Type 0 where
  pub user_id : ℕ
  pub catalog_id : ℕ
  pub status : String
  pub updated_at : Option ℕ

-- item_type of collection_items, and entity_type of user_opinions
pub data EntityType : Type 0 where
  track set artist genre playlist : EntityType

pub record CollectionItem : Type 0 where
  pub id : ℕ
  pub collection_id : ℕ
  pub item_type : EntityType
  pub item_id : Option ℕ
  pub position : ℕ

pub record UserOpinion : Type 0 where
  pub user_id : ℕ
  pub entity_type : EntityType
  pub entity_key : Text
  pub opinion : String

-- A row with a plain, nullable catalog_id: set_tracks, radar_tracks and artist_activity.
pub record Reference : Type 0 where
  pub id : ℕ
  pub catalog_id : Option ℕ

pub record RadarTrend : Type 0 where
  pub catalog_id : ℕ
  pub trend_score : ℕ

pub record CatalogAlbum : Type 0 where
  pub catalog_id : ℕ
  pub album_id : ℕ

pub record TrackEmbedding : Type 0 where
  pub id : ℕ
  pub catalog_id : ℕ
  pub model_name : String
  pub model_version : String

pub record Db : Type 0 where
  pub catalog : List CatalogEntry
  pub catalog_artists : List CatalogArtist
  pub user_tracks : List UserTrack
  pub collection_items : List CollectionItem
  pub user_radar_state : List UserRadarState
  pub set_tracks : List Reference
  pub radar_tracks : List Reference
  pub artist_activity : List Reference
  pub radar_trends : List RadarTrend
  pub user_opinions : List UserOpinion
  pub catalog_albums : List CatalogAlbum
  pub track_embeddings : List TrackEmbedding

abbrev pub is_track : EntityType → Bool
is_track track = Bool.true
is_track _ = Bool.false

-- Python's truth of a nullable string: NULL and "" are false
abbrev pub truthy : Option String → Bool
truthy none = Bool.false
truthy (some s) = not (str_eq s "")
