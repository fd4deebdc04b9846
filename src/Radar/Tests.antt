-- ===== src/Radar/Tests.antt =====
-- The radar at small playlists.
use diggy.Prelude.{
  ℕ, ◌≤◌, String, ◌≡◌, ◌≢◌, refl, Bool, true, false, Option, none, some, List, [], ◌∷◌, arith, any,
  count, str_eq, str_eq_iff, subst, Bool-cases, inl, inr,
}
use diggy.Radar.Cadence.{wait, backoff, elapsed_decision, crawl_decision}
use diggy.Radar.Batch.{Playlist, is_due, newest_first, followed_first, select_crawl_batch}
use diggy.Radar.Diff.{
  SourceTrack, RadarTrack, Crawl, is_in, is_row, new_track, to_insert, crawled_ids, mark_removed,
  clear_removed, bulk_insert_radar_tracks,
}
use diggy.Radar.Diff.Active.{is_active, bulk_insert_radar_tracks-active}
use diggy.Radar.Diff.Once.{HasTracksOnce, others, bulk_insert_radar_tracks-HasTracksOnce}

crawling : Unit {0}
unfolding backoff elapsed_decision crawl_decision is_due newest_first followed_first
    select_crawl_batch new_track to_insert mark_removed clear_removed bulk_insert_radar_tracks
crawling = tt

abbrev now : ℕ
now = 8640000

weekly : crawl_decision now false (some 6000000) none (some 8300000) ≡ wait
unfolding crawling
weekly = refl

abbrev playlist : ℕ → Bool → Option ℕ → Playlist
playlist i followed crawled = record {
  id = i;
  has_followers = followed;
  last_changed_at = some 8000000;
  created_at = none;
  last_crawled_at = crawled;
}

abbrev playlists : List Playlist
playlists =
    playlist 1 false none ∷ playlist 2 true (some 8000000) ∷ playlist 3 true (some 8639000) ∷ []

picks_followed : (select_crawl_batch playlists now 1).batch ≡ playlist 2 true (some 8000000) ∷ []
unfolding crawling
picks_followed = refl

abbrev source_track : String → SourceTrack
source_track i = record { external_id = i; title = "Strobe"; artist = some "deadmau5"; isrc = none }

abbrev crawl_of : Crawl
crawl_of = record {
  entity_id = 4;
  source = "deezer";
  is_initial = false;
  catalog_id_of = λ st. none;
  now = 900;
}

abbrev radar_track : ℕ → String → Option ℕ → RadarTrack
radar_track e i removed = record {
  watched_entity_id = e;
  external_track_id = i;
  source = "deezer";
  title = "Strobe";
  artist = none;
  isrc = none;
  detected_at = 100;
  catalog_id = some 1;
  is_initial_detection = true;
  removed_at = removed;
}

abbrev known : List RadarTrack
known = radar_track 4 "a" none ∷ radar_track 4 "b" (some 500) ∷ radar_track 5 "c" none ∷ []

abbrev crawled : List SourceTrack
crawled = source_track "b" ∷ source_track "d" ∷ source_track "d" ∷ []

diff :
    (bulk_insert_radar_tracks crawl_of crawled known).rows
    ≡ radar_track 4 "a" (some 900)
      ∷ radar_track 4 "b" none
      ∷ radar_track 5 "c" none
      ∷ new_track crawl_of (source_track "d")
      ∷ []
unfolding crawling
diff = refl

returned : crawled ≢ []
returned h = cc h

bulk_insert_radar_tracks-active_example :
    any (is_active 4 "b") (bulk_insert_radar_tracks crawl_of crawled known).rows
    ≡ is_in "b" (crawled_ids crawled)
bulk_insert_radar_tracks-active_example =
    bulk_insert_radar_tracks-active crawl_of crawled known "b" returned

once_each : HasTracksOnce known
once_each e x = elim (Bool-cases (str_eq "a" x)) [
  | inl is_a ↦
      let p : "a" ≡ x = (str_eq_iff "a" x).0 is_a in
      subst (λ y. count (is_row e y) known ≤ 1) p (ground arith)
  | inr not_a ↦ ground (arith, not_a)
]

bulk_insert_radar_tracks-HasTracksOnce_example :
    HasTracksOnce (bulk_insert_radar_tracks crawl_of crawled known).rows
    × (others 4 (bulk_insert_radar_tracks crawl_of crawled known).rows ≡ others 4 known)
bulk_insert_radar_tracks-HasTracksOnce_example =
    bulk_insert_radar_tracks-HasTracksOnce crawl_of crawled known once_each
