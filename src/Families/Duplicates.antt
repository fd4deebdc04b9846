-- ===== src/Families/Duplicates.antt =====
-- `_merge_duplicates`: the tracklists of several recordings of one set, aligned with the one that
-- identifies most and without repetitions.
pub mod Passes
pub mod Keys
pub mod Tracklist
use diggy.Prelude.{
  ℕ, suc, ◌+◌, ◌-◌, ◌*◌, ◌/◌, ◌%◌, Bool, true, false, not, ◌&&◌, ◌||◌, Option, none, some, List, [],
  ◌∷◌, ◌++◌, map, leb, ltb, ◌==◌, if◌then◌else◌, is_some, or_else, length, count, filter_map,
}
use diggy.Prelude.Int.{ℤ, pos, negsuc, sub_ℕ, ◌+ℤ◌, ◌-ℤ◌, leb_ℤ}
use diggy.Prelude.Text.{Text, text_eq}
use diggy.Prelude.Sort.{sort_by}
use diggy.Families.Rows.{DjSet, Track, Env}
use diggy.Families.Parts.{track_key, is_blank, shift_track}

-- max(children, key=…), the first of the best
abbrev identified : (ℕ → List Track) → DjSet → ℕ
identified tracks c = count (λ t. not t.is_id) (tracks c.id)

unfoldable pub best_child : (ℕ → List Track) → DjSet → List DjSet → DjSet
best_child tracks best [] = best
best_child tracks best (c ∷ cs) =
    best_child tracks (if ltb (identified tracks best) (identified tracks c) then c else best) cs

abbrev pub has_mtid : ℕ → Track → Bool
has_mtid m t = elim t.trackid_music_track_id [ none ↦ false | some n ↦ n == m ]

abbrev timecode_of : ℕ → Track → Option ℤ
timecode_of m t = if has_mtid m t then t.timecode_ms else none

-- ref_mtid_tc, in which a later track overwrites an earlier one
unfoldable pub ref_timecode : List Track → ℕ → Option ℤ
ref_timecode [] m = none
ref_timecode (t ∷ ts) m = or_else (ref_timecode ts m) (timecode_of m t)

abbrev difference : Option ℤ → Option ℤ → Option ℤ
difference (some a) (some b) = some (a -ℤ b)
difference _ _ = none

abbrev delta : List Track → Track → Option ℤ
delta ref t = elim t.trackid_music_track_id [
  | none ↦ none
  | some m ↦ difference t.timecode_ms (ref_timecode ref m)
]

-- int(z / 2), towards zero
abbrev half : ℤ → ℤ
half (pos n) = pos (n / 2)
half (negsuc n) = sub_ℕ 0 (suc n / 2)

abbrev item : ℕ → List ℤ → ℤ
item i [] = pos 0
item ℕ.zero (z ∷ zs) = z
item (suc i) (z ∷ zs) = item i zs

-- int(median(zs))
unfoldable pub median : List ℤ → ℤ
median zs =
    let n = length zs in
    let sorted = sort_by leb_ℤ zs in
    if n % 2 == 1
    then item (n / 2) sorted
    else half (item (n / 2 - 1) sorted +ℤ item (n / 2) sorted)

unfoldable pub offset_of : List Track → List Track → ℤ
offset_of ref ts =
    let deltas = filter_map (delta ref) ts in if leb 3 (length deltas) then median deltas else pos 0

-- the tracks of a child on the clock of the reference
abbrev aligned : List Track → List Track → List Track
aligned ref ts = map (shift_track (pos 0 -ℤ offset_of ref ts)) ts

unfoldable pub aligned_tracks : (ℕ → List Track) → DjSet → List DjSet → List Track
aligned_tracks tracks reference [] = []
aligned_tracks tracks reference (c ∷ cs) =
    let rest = aligned_tracks tracks reference cs in
    if c.id == reference.id then rest else aligned (tracks reference.id) (tracks c.id) ++ rest

unfoldable pub all_tracks : (ℕ → List Track) → DjSet → List DjSet → List Track
all_tracks tracks c cs =
    let reference = best_child tracks c cs in
    tracks reference.id ++ aligned_tracks tracks reference (c ∷ cs)

-- a dictionary from mtid to track, as its values in the order of insertion
unfoldable pub put_mtid : ℕ → Track → List Track → List Track
put_mtid m t [] = t ∷ []
put_mtid m t (u ∷ us) =
    let rest = put_mtid m t us in
    if has_mtid m u
    then (if not (is_some u.timecode_ms) && is_some t.timecode_ms then t else u) ∷ us
    else u ∷ rest

abbrev with_mtid : Option ℕ → Track → List Track → List Track
with_mtid none t best = best
with_mtid (some m) t best = put_mtid m t best

abbrev without_mtid : Option ℕ → Track → List Track → List Track
without_mtid none t no_mtid = no_mtid ++ (t ∷ [])
without_mtid (some m) t no_mtid = no_mtid

-- The first pass, and its pool.
unfoldable pub by_mtid : List Track → List Track → List Track → List Track
by_mtid best no_mtid [] = best ++ no_mtid
by_mtid best no_mtid (t ∷ ts) =
    by_mtid (with_mtid t.trackid_music_track_id t best)
      (without_mtid t.trackid_music_track_id t no_mtid) ts

abbrev pub has_key : Env → Text → Track → Bool
has_key env k u = not (is_blank (track_key env u)) && text_eq (track_key env u) k

unfoldable pub put_key : Env → Text → Track → List Track → List Track
put_key env k t [] = t ∷ []
put_key env k t (u ∷ us) =
    let rest = put_key env k t us in
    if has_key env k u
    then (if not (is_some u.trackid_music_track_id) && is_some t.trackid_music_track_id
        then t
        else u)
      ∷ us
    else u ∷ rest

-- The second pass; a track with a blank key has a key of its own.
unfoldable pub by_key : Env → List Track → List Track → List Track
by_key env best [] = best
by_key env best (t ∷ ts) =
    by_key env
      (if is_blank (track_key env t)
        then best ++ (t ∷ [])
        else put_key env (track_key env t) t best)
      ts

-- the order of (timecode_ms is None, timecode_ms or 0)
abbrev pub timecode_le : Option ℤ → Option ℤ → Bool
timecode_le none none = true
timecode_le none (some b) = false
timecode_le (some a) none = true
timecode_le (some a) (some b) = leb_ℤ a b

abbrev pub track_le : Track → Track → Bool
track_le a b = timecode_le a.timecode_ms b.timecode_ms

unfoldable pub deduped : Env → List Track → List Track
deduped env ts = sort_by track_le (by_key env [] (by_mtid [] [] ts))

-- `_merge_duplicates` of one child or more
unfoldable pub merge_duplicates : Env → (ℕ → List Track) → DjSet → List DjSet → List Track
merge_duplicates env tracks c cs = deduped env (all_tracks tracks c cs)
