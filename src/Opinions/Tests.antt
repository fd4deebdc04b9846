-- ===== src/Opinions/Tests.antt =====
-- The synchronisation at a small database: user 7 owns the track 50 and disliked it.
use diggy.Prelude.{ℕ, ◌≡◌, refl, false, ◌&&◌, none, some, [], ◌∷◌, ◌==◌, map}
use diggy.Prelude.Text.{str}
use diggy.Catalog.Rows.{track}
use diggy.Opinions.{
  OpinionTables, radar_status, sync_track_opinion, sync_set_opinion, sync_playlist_opinion,
}
use diggy.Opinions.Synced.{IsSynced, SameFor, sync_track_opinion-IsSynced}

abbrev tables : OpinionTables
tables = record {
  user_opinions =
      record { user_id = 7; entity_type = track; entity_key = str 50; opinion = "disliked" } ∷ [];
  user_tracks = record { user_id = 7; catalog_id = 50; source = none; avis = some "disliked" } ∷ [];
  user_radar_state = [];
  user_set_follows = record { user_id = 7; set_id = 3; followed_at = 1 } ∷ [];
  user_follows = [];
}

syncing : Unit {0}
unfolding sync_track_opinion sync_set_opinion sync_playlist_opinion radar_status str
syncing = tt

added :
    map (λ r. r.status) (sync_track_opinion 9 7 50 (some "liked") tables).user_radar_state
    ≡ "added" ∷ []
unfolding syncing
added = refl

unfollowed : (sync_set_opinion 9 7 3 none tables).user_set_follows ≡ []
unfolding syncing
unfollowed = refl

followed_playlist :
    map (λ r. r.entity_id) (sync_playlist_opinion 9 7 4 (some "liked") tables).user_follows ≡ 4 ∷ []
unfolding syncing
followed_playlist = refl

sync_track_opinion-IsSynced_example :
    IsSynced 7 50 (some "liked") tables (sync_track_opinion 9 7 50 (some "liked") tables)
    × ((v d : ℕ)
        → (v == 7 && d == 50) ≡ false
        → SameFor v d tables (sync_track_opinion 9 7 50 (some "liked") tables))
sync_track_opinion-IsSynced_example = sync_track_opinion-IsSynced 9 7 50 (some "liked") tables
