-- ===== src/Radar/Diff.antt =====
-- `bulk_insert_radar_tracks` of server/workers/db.py: the tracks of a playlist after a crawl. No
-- other worker inserts into the playlist meanwhile, so that no insert meets a conflict.
pub mod Active
pub mod Once
use diggy.Prelude.{
  ℕ, String, Bool, true, false, not, ◌&&◌, ◌||◌, Option, none, some, List, [], ◌∷◌, ◌++◌, str_eq,
  ◌==◌, if◌then◌else◌, is_some, any, length, count, update_where,
}

pub record SourceTrack : Type 0 where
  pub external_id : String
  pub title : String
  pub artist : Option String
  pub isrc : Option String

pub record RadarTrack : Type 0 where
  pub watched_entity_id : ℕ
  pub external_track_id : String
  pub source : String
  pub title : String
  pub artist : Option String
  pub isrc : Option String
  pub detected_at : ℕ
  pub catalog_id : Option ℕ
  pub is_initial_detection : Bool
  pub removed_at : Option ℕ

-- What a crawl is called with; `catalog_id_of` looks the normalized key of a track up in the
-- catalog map.
pub record Crawl : Type 0 where
  pub entity_id : ℕ
  pub source : String
  pub is_initial : Bool
  pub catalog_id_of : SourceTrack → Option ℕ
  pub now : ℕ

abbrev pub is_in : String → List String → Bool
is_in x ids = any (λ y. str_eq y x) ids

abbrev pub is_row : ℕ → String → RadarTrack → Bool
is_row e x r = r.watched_entity_id == e && str_eq r.external_track_id x

unfoldable pub new_track : Crawl → SourceTrack → RadarTrack
new_track c st = record {
  watched_entity_id = c.entity_id;
  external_track_id = st.external_id;
  source = c.source;
  title = st.title;
  artist = st.artist;
  isrc = st.isrc;
  detected_at = c.now;
  catalog_id = c.catalog_id_of st;
  is_initial_detection = c.is_initial;
  removed_at = none;
}

-- existing_ext_ids
abbrev pub ids_of : ℕ → List RadarTrack → List String
ids_of e [] = []
ids_of e (r ∷ rows) =
    let rest = ids_of e rows in
    if r.watched_entity_id == e then r.external_track_id ∷ rest else rest

-- The loop that collects what to insert; `seen` are the ids that exist by then.
unfoldable pub to_insert : Crawl → List String → List SourceTrack → List RadarTrack
to_insert c seen [] = []
to_insert c seen (st ∷ tracks) =
    let rest = to_insert c seen tracks in
    let more = to_insert c (st.external_id ∷ seen) tracks in
    if is_in st.external_id seen then rest else new_track c st ∷ more

abbrev pub crawled_ids : List SourceTrack → List String
crawled_ids [] = []
crawled_ids (st ∷ tracks) = st.external_id ∷ crawled_ids tracks

-- the WHERE of the two updates
abbrev pub to_mark : Crawl → List String → RadarTrack → Bool
to_mark c ids r =
    r.watched_entity_id == c.entity_id
    && not (is_in r.external_track_id ids)
    && not (is_some r.removed_at)

abbrev pub to_clear : Crawl → List String → RadarTrack → Bool
to_clear c ids r =
    r.watched_entity_id == c.entity_id && is_in r.external_track_id ids && is_some r.removed_at

unfoldable pub mark_removed : Crawl → List String → List RadarTrack → List RadarTrack
mark_removed c ids rows =
    update_where (to_mark c ids) (λ r. record r { removed_at = some c.now }) rows

unfoldable pub clear_removed : Crawl → List String → List RadarTrack → List RadarTrack
clear_removed c ids rows = update_where (to_clear c ids) (λ r. record r { removed_at = none }) rows

pub record Diff : Type 0 where
  pub inserted : ℕ
  pub removed : ℕ
  pub rows : List RadarTrack

abbrev pub diff_of : Crawl → List SourceTrack → List RadarTrack → Diff
diff_of c tracks rows =
    let new = to_insert c (ids_of c.entity_id rows) tracks in
    let ids = crawled_ids tracks in
    record {
      inserted = length new;
      removed = count (to_mark c ids) (rows ++ new);
      rows = clear_removed c ids (mark_removed c ids (rows ++ new));
    }

unfoldable pub bulk_insert_radar_tracks : Crawl → List SourceTrack → List RadarTrack → Diff
bulk_insert_radar_tracks c [] rows = record { inserted = 0; removed = 0; rows = rows }
bulk_insert_radar_tracks c (st ∷ tracks) rows = diff_of c (st ∷ tracks) rows
