-- ===== src/Opinions.antt =====
-- The synchronisation of opinions (server/api/services/opinion_sync.py): what a user says of a
-- track, a set or a playlist, over the tables that remember it.
pub mod Synced
pub mod Tests
use diggy.Prelude.{
  ℕ, String, Bool, true, false, not, ◌&&◌, Option, none, some, List, [], ◌∷◌, ◌++◌, ◌==◌, str_eq,
  if◌then◌else◌, any, delete_where, update_where,
}
use diggy.Prelude.Text.{Text, text_eq, str}
use diggy.Catalog.Rows.{UserOpinion, UserTrack, UserRadarState, track, is_track}

pub record UserSetFollow : Type 0 where
  pub user_id : ℕ
  pub set_id : ℕ
  pub followed_at : ℕ

pub record UserFollow : Type 0 where
  pub user_id : ℕ
  pub entity_id : ℕ
  pub followed_at : ℕ

pub record OpinionTables : Type 0 where
  pub user_opinions : List UserOpinion
  pub user_tracks : List UserTrack
  pub user_radar_state : List UserRadarState
  pub user_set_follows : List UserSetFollow
  pub user_follows : List UserFollow

-- OPINION_TO_RADAR.get(opinion, "new") if opinion else "new"
unfoldable pub radar_status : Option String → String
radar_status none = "new"
radar_status (some opinion) =
    if str_eq opinion "liked"
    then "added"
    else (if str_eq opinion "disliked" then "ignored" else "new")

-- the row of a key is changed if there is one, and added else
abbrev pub put_row {ℓ} : {A : Type ℓ} → (A → Bool) → (A → A) → A → List A → List A
put_row q f new rows = if any q rows then update_where q f rows else rows ++ new ∷ []

abbrev pub of_opinion : ℕ → ℕ → UserOpinion → Bool
of_opinion u c r = r.user_id == u && is_track r.entity_type && text_eq r.entity_key (str c)

abbrev pub of_track : ℕ → ℕ → UserTrack → Bool
of_track u c r = r.user_id == u && r.catalog_id == c

abbrev pub of_radar : ℕ → ℕ → UserRadarState → Bool
of_radar u c r = r.user_id == u && r.catalog_id == c

abbrev pub with_opinion : ℕ → ℕ → Option String → List UserOpinion → List UserOpinion
with_opinion u c none rows = delete_where (of_opinion u c) rows
with_opinion u c (some opinion) rows =
    put_row (of_opinion u c) (λ r. record r { opinion = opinion })
      (record { user_id = u; entity_type = track; entity_key = str c; opinion = opinion }) rows

unfoldable pub sync_track_opinion : ℕ → ℕ → ℕ → Option String → OpinionTables → OpinionTables
sync_track_opinion now u c opinion db =
    let status = radar_status opinion in
    record db {
      user_opinions = with_opinion u c opinion db.user_opinions;
      user_tracks = update_where (of_track u c) (λ r. record r { avis = opinion }) db.user_tracks;
      user_radar_state =
          put_row (of_radar u c) (λ r. record r { status = status; updated_at = some now })
            (record { user_id = u; catalog_id = c; status = status; updated_at = some now })
            db.user_radar_state;
    }

abbrev pub is_liked : Option String → Bool
is_liked none = false
is_liked (some opinion) = str_eq opinion "liked"

-- like = follow, anything else = unfollow
abbrev pub follow_rows {ℓ} : {A : Type ℓ} → (A → Bool) → A → Bool → List A → List A
follow_rows q new liked rows =
    if liked then (if any q rows then rows else rows ++ new ∷ []) else delete_where q rows

abbrev pub of_set : ℕ → ℕ → UserSetFollow → Bool
of_set u s r = r.user_id == u && r.set_id == s

abbrev pub of_entity : ℕ → ℕ → UserFollow → Bool
of_entity u e r = r.user_id == u && r.entity_id == e

unfoldable pub sync_set_opinion : ℕ → ℕ → ℕ → Option String → OpinionTables → OpinionTables
sync_set_opinion now u s opinion db = record db {
  user_set_follows =
      follow_rows (of_set u s) (record { user_id = u; set_id = s; followed_at = now })
        (is_liked opinion) db.user_set_follows;
}

unfoldable pub sync_playlist_opinion : ℕ → ℕ → ℕ → Option String → OpinionTables → OpinionTables
sync_playlist_opinion now u e opinion db = record db {
  user_follows =
      follow_rows (of_entity u e) (record { user_id = u; entity_id = e; followed_at = now })
        (is_liked opinion) db.user_follows;
}
