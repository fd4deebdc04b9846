-- ===== src/Radar/Diff/Active.antt =====
-- Which tracks of a playlist are active after a crawl.
use diggy.Prelude.{
  ℕ, String, ◌≡◌, ◌≢◌, refl, ap, ◌∙◌, Bool, true, not, ◌&&◌, ◌||◌, List, [], ◌∷◌, ◌++◌, str_eq,
  str_eq_iff, arith, is_some, any, any-append,
}
use diggy.Radar.Diff.{
  SourceTrack, RadarTrack, Crawl, is_in, is_row, new_track, ids_of, to_insert, crawled_ids,
  mark_removed, clear_removed, bulk_insert_radar_tracks,
}

-- on the playlist and not removed
abbrev pub is_active : ℕ → String → RadarTrack → Bool
is_active e x r = is_row e x r && not (is_some r.removed_at)

pub is_in-eq : (x y : String) (ids : List String) → str_eq x y ≡ true → is_in x ids ≡ is_in y ids
is_in-eq x y ids h = let p : x ≡ y = (str_eq_iff x y).0 h in rw p refl

pub is_in-ids_of :
    (e : ℕ) (x : String) (rows : List RadarTrack) → is_in x (ids_of e rows) ≡ any (is_row e x) rows
is_in-ids_of e x [] = refl
is_in-ids_of e x (r ∷ rows) = ground (arith, is_in-ids_of e x rows)

-- After the two updates a row is active exactly if its track was crawled.
any-updated :
    (c : Crawl) (x : String) (ids : List String) (rows : List RadarTrack)
    → any (is_active c.entity_id x) (clear_removed c ids (mark_removed c ids rows))
      ≡ any (is_row c.entity_id x) rows && is_in x ids
unfolding clear_removed mark_removed
any-updated c x ids [] = refl
any-updated c x ids (r ∷ rows) =
    ground (arith, any-updated c x ids rows, is_in-eq r.external_track_id x ids)

any-to_insert :
    (c : Crawl) (x : String) (seen : List String) (tracks : List SourceTrack)
    → is_in x seen || any (is_row c.entity_id x) (to_insert c seen tracks)
      ≡ is_in x seen || is_in x (crawled_ids tracks)
unfolding to_insert new_track
any-to_insert c x seen [] = refl
any-to_insert c x seen (st ∷ tracks) = ground (
  arith,
  any-to_insert c x seen tracks,
  any-to_insert c x (st.external_id ∷ seen) tracks,
  is_in-eq st.external_id x seen,
)

of_crawled :
    (old seen new crawled : Bool)
    → seen ≡ old
    → seen || new ≡ seen || crawled
    → (old || new) && crawled ≡ crawled
of_crawled old seen new crawled h k = ground arith

-- After a crawl that returned a track at all, the active tracks of the playlist are those that the
-- crawl returned: a new track is there, one that came back is active again, and one that is gone is
-- marked as removed.
pub bulk_insert_radar_tracks-active :
    (c : Crawl) (tracks : List SourceTrack) (rows : List RadarTrack) (x : String)
    → tracks ≢ []
    → any (is_active c.entity_id x) (bulk_insert_radar_tracks c tracks rows).rows
      ≡ is_in x (crawled_ids tracks)
unfolding bulk_insert_radar_tracks
bulk_insert_radar_tracks-active c [] rows x h = absurd (h refl)
bulk_insert_radar_tracks-active c (st ∷ tracks) rows x h =
    let new = to_insert c (ids_of c.entity_id rows) (st ∷ tracks) in
    let ids = crawled_ids (st ∷ tracks) in
    let updated = any-updated c x ids (rows ++ new) in
    let both = any-append (is_row c.entity_id x) rows new in
    let added = any-to_insert c x (ids_of c.entity_id rows) (st ∷ tracks) in
    let old = is_in-ids_of c.entity_id x rows in
    updated
    ∙ ap (λ b. b && is_in x ids) both
    ∙ of_crawled (any (is_row c.entity_id x) rows) (is_in x (ids_of c.entity_id rows))
        (any (is_row c.entity_id x) new) (is_in x ids) old added
