-- ===== src/Radar/Diff/Once.antt =====
-- A crawl leaves one row for each track of the playlist, and other playlists alone.
use diggy.Prelude.{
  ℕ, ◌+◌, ◌≤◌, String, ◌≡◌, refl, sym, subst, ◌∙◌, Bool, false, not, ◌&&◌, List, [], ◌∷◌, ◌++◌,
  ◌==◌, arith, if◌then◌else◌, any, count, Bool-cases, inl, inr, delete_where,
}
use diggy.Radar.Diff.{
  SourceTrack, RadarTrack, Crawl, is_in, is_row, new_track, ids_of, to_insert, crawled_ids,
  mark_removed, clear_removed, bulk_insert_radar_tracks,
}
use diggy.Radar.Diff.Active.{is_in-eq, is_in-ids_of}

-- uq_radar_playlist_track
abbrev pub HasTracksOnce : List RadarTrack → Type 0
HasTracksOnce rows = (e : ℕ) (x : String) → count (is_row e x) rows ≤ 1

count-append :
    {A : Type 0} (p : A → Bool) (xs ys : List A) → count p (xs ++ ys) ≡ count p xs + count p ys
count-append p [] ys = omega arith
count-append p (x ∷ xs) ys = omega (arith, count-append p xs ys)

count-updated :
    (c : Crawl) (ids : List String) (e : ℕ) (x : String) (rows : List RadarTrack)
    → count (is_row e x) (clear_removed c ids (mark_removed c ids rows)) ≡ count (is_row e x) rows
unfolding clear_removed mark_removed
count-updated c ids e x [] = refl
count-updated c ids e x (r ∷ rows) = ground (arith, count-updated c ids e x rows)

count-to_insert :
    (c : Crawl) (e : ℕ) (x : String) (seen : List String) (tracks : List SourceTrack)
    → count (is_row e x) (to_insert c seen tracks)
      ≤ (if c.entity_id == e && not (is_in x seen) then 1 else 0)
unfolding to_insert new_track
count-to_insert c e x seen [] = ground arith
count-to_insert c e x seen (st ∷ tracks) = ground (
  arith,
  count-to_insert c e x seen tracks,
  count-to_insert c e x (st.external_id ∷ seen) tracks,
  is_in-eq st.external_id x seen,
)

any-count : (p : RadarTrack → Bool) (rows : List RadarTrack) → any p rows ≡ false → count p rows ≡ 0
any-count p [] h = refl
any-count p (r ∷ rows) h = ground (arith, any-count p rows)

abbrev pub others : ℕ → List RadarTrack → List RadarTrack
others e rows = delete_where (λ r. r.watched_entity_id == e) rows

others-updated :
    (c : Crawl) (ids : List String) (rows : List RadarTrack)
    → others c.entity_id (clear_removed c ids (mark_removed c ids rows)) ≡ others c.entity_id rows
unfolding clear_removed mark_removed
others-updated c ids [] = refl
others-updated c ids (r ∷ rows) = ground (arith, others-updated c ids rows)

others-to_insert :
    (c : Crawl) (seen : List String) (tracks : List SourceTrack)
    → others c.entity_id (to_insert c seen tracks) ≡ []
unfolding to_insert new_track
others-to_insert c seen [] = refl
others-to_insert c seen (st ∷ tracks) =
    ground
      (arith, others-to_insert c seen tracks, others-to_insert c (st.external_id ∷ seen) tracks)

others-append :
    (e : ℕ) (rows new : List RadarTrack)
    → others e new ≡ []
    → others e (rows ++ new) ≡ others e rows
others-append e [] new h = h
others-append e (r ∷ rows) new h = ground (arith, others-append e rows new h)

unseen-count :
    (e : ℕ) (x : String) (rows : List RadarTrack)
    → is_in x (ids_of e rows) ≡ false
    → count (is_row e x) rows ≡ 0
unseen-count e x rows h = any-count (is_row e x) rows (sym (is_in-ids_of e x rows) ∙ h)

once :
    (c : Crawl) (tracks : List SourceTrack) (rows : List RadarTrack) (e : ℕ) (x : String)
    → count (is_row e x) rows ≤ 1
    → count (is_row e x) rows + count (is_row e x) (to_insert c (ids_of c.entity_id rows) tracks)
      ≤ 1
once c tracks rows e x h =
    let new = count-to_insert c e x (ids_of c.entity_id rows) tracks in
    elim (Bool-cases (c.entity_id == e)) [
      | inl mine ↦
          let p : c.entity_id ≡ e = ground arith in
          elim (Bool-cases (is_in x (ids_of c.entity_id rows))) [
            | inl seen ↦ ground (arith, new, h)
            | inr fresh ↦
                let z : count (is_row e x) rows ≡ 0 =
                  unseen-count e x rows (subst (λ i. is_in x (ids_of i rows) ≡ false) p fresh) in
                ground (arith, new, z)
          ]
      | inr other ↦ ground (arith, new, h)
    ]

-- A table with one row for each playlist and track has one after a crawl too, and the rows of the
-- other playlists are as they were.
pub bulk_insert_radar_tracks-HasTracksOnce :
    (c : Crawl) (tracks : List SourceTrack) (rows : List RadarTrack)
    → HasTracksOnce rows
    → HasTracksOnce (bulk_insert_radar_tracks c tracks rows).rows
      × (others c.entity_id (bulk_insert_radar_tracks c tracks rows).rows ≡ others c.entity_id rows)
unfolding bulk_insert_radar_tracks
bulk_insert_radar_tracks-HasTracksOnce c [] rows u = (u, refl)
bulk_insert_radar_tracks-HasTracksOnce c (st ∷ tracks) rows u =
    let seen = ids_of c.entity_id rows in
    let new = to_insert c seen (st ∷ tracks) in
    let ids = crawled_ids (st ∷ tracks) in
    (
      λ e x.
          let same = count-updated c ids e x (rows ++ new) in
          let parts = count-append (is_row e x) rows new in
          let low = once c (st ∷ tracks) rows e x (u e x) in omega (arith, same, parts, low),
      others-updated c ids (rows ++ new)
          ∙ others-append c.entity_id rows new (others-to_insert c seen (st ∷ tracks)),
    )
