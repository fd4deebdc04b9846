-- ===== src/Families/Parts.antt =====
-- `_same_track` and `_merge_parts`: the parts of one performance, one after the other.
pub mod Timeline
pub mod Joined
pub mod Plays
use diggy.Prelude.{
  ℕ, Bool, true, false, not, ◌&&◌, ◌||◌, Option, none, some, List, [], ◌∷◌, ◌++◌, map, leb, ltb,
  ◌==◌, if◌then◌else◌, get_or,
}
use diggy.Prelude.Int.{ℤ, pos, ◌+ℤ◌}
use diggy.Prelude.Text.{Text, text_eq}
use diggy.Prelude.Sort.{sort_by}
use diggy.Families.Rows.{DjSet, Track, Env}

abbrev pub nonempty {ℓ} : {A : Type ℓ} → List A → Bool
nonempty [] = false
nonempty (x ∷ xs) = true

abbrev bar : Text
bar = b'|' ∷ []

-- normalize((raw_artist or "") + "|" + (raw_title or ""))
unfoldable pub track_key : Env → Track → Text
track_key env t = env.normalize (get_or t.raw_artist [] ++ bar ++ get_or t.raw_title [])

unfoldable pub is_blank : Text → Bool
is_blank key = not (nonempty key) || text_eq key bar

abbrev pub same_keys : Env → Track → Track → Bool
same_keys env a b =
    not (is_blank (track_key env a))
    && not (is_blank (track_key env b))
    && text_eq (track_key env a) (track_key env b)

abbrev same_by : Env → Option ℕ → Option ℕ → Track → Track → Bool
same_by env (some m) (some n) a b = m == n
same_by env _ _ a b = same_keys env a b

unfoldable pub same_track : Env → Track → Track → Bool
same_track env a b = same_by env a.trackid_music_track_id b.trackid_music_track_id a b

abbrev pub shift : ℤ → Option ℤ → Option ℤ
shift d none = none
shift d (some z) = some (z +ℤ d)

abbrev pub shift_track : ℤ → Track → Track
shift_track d t = record t {
  timecode_ms = shift d t.timecode_ms;
  end_time_ms = shift d t.end_time_ms;
}

-- the order of `sorted` by (part_number is None, part_number or 0)
abbrev pub part_le : DjSet → DjSet → Bool
part_le a b = elim a.part_number [
  | none ↦ elim b.part_number [ none ↦ true | some n ↦ false ]
  | some m ↦ elim b.part_number [ none ↦ true | some n ↦ leb m n ]
]

abbrev pub last? {ℓ} : {A : Type ℓ} → List A → Option A
last? [] = none
last? (x ∷ []) = some x
last? (x ∷ y ∷ xs) = last? (y ∷ xs)

-- the last known timecode of tracks, or the one known before
abbrev pub last_timecode : ℤ → List Track → ℤ
last_timecode tc [] = tc
last_timecode tc (t ∷ ts) = last_timecode (get_or t.timecode_ms tc) ts

abbrev is_same_as_last : Env → Option Track → Track → Bool
is_same_as_last env none t = false
is_same_as_last env (some l) t = same_track env l t

-- The first track of a part is dropped where it is the last of the part before.
unfoldable pub join : Env → List Track → List Track → List Track
join env merged [] = merged
join env merged (t ∷ ts) = merged ++ (if is_same_as_last env (last? merged) t then ts else t ∷ ts)

-- where the part after one begins, by its duration or by the last known timecode
abbrev pub next_offset : Option ℕ → ℤ → ℤ → ℤ
next_offset none offset last_known = last_known +ℤ pos 180000
next_offset (some d) offset last_known = offset +ℤ pos d

-- The loop; what it computes of the offset after the last part is not used.
unfoldable pub parts_from : Env → (ℕ → List Track) → List DjSet → List Track → ℤ → ℤ → List Track
parts_from env tracks [] merged offset last_known = merged
parts_from env tracks (c ∷ cs) merged offset last_known =
    let adjusted = map (shift_track offset) (tracks c.id) in
    let known = last_timecode last_known adjusted in
    parts_from env tracks cs (join env merged adjusted) (next_offset c.duration_ms offset known)
      known

unfoldable pub merge_parts : Env → List DjSet → (ℕ → List Track) → List Track
merge_parts env children tracks =
    parts_from env tracks (sort_by part_le children) [] (pos 0) (pos 0)
