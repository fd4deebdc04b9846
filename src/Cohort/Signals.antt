-- ===== src/Cohort/Signals.antt =====
-- The five signals of an artist as `recompute_cohort` (server/workers/cohort.py) reads them off the
-- tables, each GROUP BY query as its value at one artist, and the artists that it considers.
-- An entity key counts as a number where it is a plain decimal, as `str` of an id writes it.
pub mod Complete
use diggy.Prelude.{
  ℕ, ◌-◌, ◌*◌, ◌/◌, ◌+◌, String, Bool, false, not, ◌&&◌, Option, none, some, List, ◌++◌, map,
  str_eq, leb, ◌==◌, is_some, or_else, if◌then◌else◌, length, filter, filter_map, any, count, mem,
  distinct,
}
use diggy.Prelude.Text.{int_of}
use diggy.Catalog.Rows.{CatalogArtist, UserOpinion, EntityType, is_track, artist}
use diggy.Cohort.Rows.{DjSet, SetArtist, SignalTables, Signals}

abbrev pub sets_window_days : ℕ
sets_window_days = 365

abbrev pub day : ℕ
day = 86400

-- (now - timedelta(days=SETS_WINDOW_DAYS)).date()
abbrev pub cutoff : ℕ → ℕ
cutoff now = (now - sets_window_days * day) / day

unfoldable pub nb_catalog : SignalTables → ℕ → ℕ
nb_catalog t aid =
    length (distinct (map (λ l. l.catalog_id) (filter (λ l. l.artist_id == aid) t.catalog_artists)))

abbrev pub in_library : SignalTables → CatalogArtist → Bool
in_library t l = any (λ u. u.catalog_id == l.catalog_id) t.user_tracks

unfoldable pub nb_lib : SignalTables → ℕ → ℕ
nb_lib t aid = length (
    distinct (
      map (λ l. l.catalog_id)
        (filter (λ l. l.artist_id == aid && in_library t l) t.catalog_artists)))

-- A reliable root set in the window; the comparison with NULL is not true.
abbrev pub set_counts : ℕ → DjSet → Bool
set_counts now s =
    not (is_some s.parent_set_id)
    && not s.unreliable
    && elim (or_else s.event_date s.played_date) [ none ↦ false | some d ↦ leb (cutoff now) d ]

abbrev pub is_dj : Option String → Bool
is_dj none = false
is_dj (some role) = str_eq role "dj"

-- The join of set_artists with sets, under the WHERE.
abbrev pub dj_link_counts : SignalTables → ℕ → SetArtist → Bool
dj_link_counts t now l = is_dj l.role && any (λ s. s.id == l.set_id && set_counts now s) t.sets

unfoldable pub nb_sets_12m : SignalTables → ℕ → ℕ → ℕ
nb_sets_12m t now aid = length (
    distinct (
      map (λ l. l.set_id)
        (filter (λ l. l.artist_id == aid && dj_link_counts t now l) t.set_artists)))

abbrev pub is_artist : EntityType → Bool
is_artist artist = Bool.true
is_artist _ = false

abbrev pub liked : UserOpinion → Bool
liked o = str_eq o.opinion "liked"

-- the artist that an artist-level like is on
abbrev pub liked_artist : UserOpinion → Option ℕ
liked_artist o = if is_artist o.entity_type && liked o then int_of o.entity_key else none

abbrev pub liked_track : UserOpinion → Option ℕ
liked_track o = if is_track o.entity_type && liked o then int_of o.entity_key else none

abbrev pub liked_catalog_ids : SignalTables → List ℕ
liked_catalog_ids t = distinct (filter_map liked_track t.user_opinions)

abbrev pub likes_artist : ℕ → UserOpinion → Bool
likes_artist aid o = elim (liked_artist o) [ none ↦ false | some i ↦ i == aid ]

unfoldable pub nb_likes : SignalTables → ℕ → ℕ
nb_likes t aid =
    count (likes_artist aid) t.user_opinions
    + length (
        distinct (
          map (λ l. l.catalog_id)
            (filter (λ l. l.artist_id == aid && mem l.catalog_id (liked_catalog_ids t))
              t.catalog_artists)))

unfoldable pub is_followed : SignalTables → ℕ → Bool
is_followed t aid = any (λ f. f.artist_id == aid) t.followed_artists

-- `_signals(aid)`
unfoldable pub signals_of : SignalTables → ℕ → ℕ → Signals
signals_of t now aid = record {
  nb_lib = nb_lib t aid;
  nb_likes = nb_likes t aid;
  nb_sets_12m = nb_sets_12m t now aid;
  nb_catalog = nb_catalog t aid;
  followed = is_followed t aid;
}

-- The keys of the four dictionaries and the followed artists. A key of `nb_lib`, and of the
-- track-level likes, is one of `nb_catalog` too.
unfoldable pub candidate_ids : SignalTables → ℕ → List ℕ
candidate_ids t now = distinct (
    map (λ l. l.artist_id) t.catalog_artists
    ++ map (λ l. l.artist_id) (filter (dj_link_counts t now) t.set_artists)
    ++ filter_map liked_artist t.user_opinions
    ++ map (λ f. f.artist_id) t.followed_artists)
