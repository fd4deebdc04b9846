-- ===== src/Families/Rows.antt =====
-- The tables that a family of sets lives in (server/api/models/sets.py), and what a call returns or
-- raises. Columns that no statement here reads are left out. Dates are numbers of days, times of a
-- track are milliseconds, which an alignment can make negative.
use diggy.Prelude.{ℕ, String, Bool, Option, none, some, List, ◌==◌, find?}
use diggy.Prelude.Int.{ℤ}
use diggy.Prelude.Text.{Text}
use diggy.Sets.Signals.{DateSignature}

-- `styles` is [] for NULL.
pub record DjSet : Type 0 where
  pub id : ℕ
  pub external_id : Option Text
  pub source : String
  pub source_url : Option Text
  pub title : Text
  pub played_date : Option ℕ
  pub duration_ms : Option ℕ
  pub has_artwork : Bool
  pub parent_set_id : Option ℕ
  pub is_virtual : Bool
  pub part_number : Option ℕ
  pub unreliable : Bool
  pub channel : Option Text
  pub styles : List Text
  pub event_date : Option ℕ
  pub channel_canonical : Option Text

-- What a track of a set says, without its place in the set.
pub record Track : Type 0 where
  pub timecode_ms : Option ℤ
  pub raw_title : Option Text
  pub raw_artist : Option Text
  pub is_id : Bool
  pub trackid_music_track_id : Option ℕ
  pub catalog_id : Option ℕ
  pub label : Option Text
  pub end_time_ms : Option ℤ

pub record SetTrack : Type 0 where
  pub set_id : ℕ
  pub position : ℕ
  pub track : Track

pub record SetArtist : Type 0 where
  pub set_id : ℕ
  pub artist_id : ℕ
  pub role : Option String
  pub position : Option ℕ

pub data SetFlagType : Type 0 where
  duplicate_candidate part_candidate part_overlap_anomaly : SetFlagType

pub data SetFlagStatus : Type 0 where
  pending attached rejected : SetFlagStatus

-- Of the JSON `signals`, whether it has the key "twin_rule"; member_set_ids is [] for NULL.
pub record SetFlag : Type 0 where
  pub id : ℕ
  pub set_id_a : ℕ
  pub set_id_b : Option ℕ
  pub flag_type : SetFlagType
  pub confidence : Option ℕ
  pub twin_rule : Bool
  pub status : SetFlagStatus
  pub resolved_by : Option ℕ
  pub resolved_at : Option ℕ
  pub group_key : Option Text
  pub member_set_ids : List ℕ

-- `next_set_id` and `next_flag_id` are the sequences that number new rows.
pub record FamilyDb : Type 0 where
  pub sets : List DjSet
  pub set_tracks : List SetTrack
  pub set_artists : List SetArtist
  pub set_flags : List SetFlag
  pub next_set_id : ℕ
  pub next_flag_id : ℕ

-- What the code takes from elsewhere: `utils.normalize`, `str.isalpha` on a character, the regular
-- expression of raw channel ids, `_title_date_signatures`, and the copy of an image in the object
-- store, which fails or succeeds.
pub record Env : Type 0 where
  pub normalize : Text → Text
  pub is_alpha : ℕ → Bool
  pub is_raw_channel_id : Text → Bool
  pub title_dates : Text → List DateSignature
  pub copy_object : ℕ → ℕ → Bool

pub data Error : Type 0 where
  lookup_error value_error attribute_error index_error multiple_results : Error

-- A raise carries no database: the caller rolls back.
pub data Result (A : Type 0) : Type 0 where
  ok : A → Result A
  err : Error → Result A

infixl 5 ◌>>=◌ ◌>>◌
abbrev pub ◌>>=◌ : {A B : Type 0} → Result A → (A → Result B) → Result B
ok a >>= f = f a
err e >>= f = err e

abbrev pub ◌>>◌ : {B : Type 0} → Result (Unit {0}) → Result B → Result B
m >> k = m >>= λ _. k

abbrev pub or_raise : {A : Type 0} → Option A → Error → Result A
or_raise none e = err e
or_raise (some a) e = ok a

abbrev pub raise_if : Bool → Error → Result (Unit {0})
raise_if Bool.true e = err e
raise_if Bool.false e = ok tt

abbrev pub has_id : ℕ → DjSet → Bool
has_id i s = s.id == i

-- `await db.get(DJSet, i)`
abbrev pub get_set : ℕ → FamilyDb → Option DjSet
get_set i db = find? (has_id i) db.sets

abbrev pub is_child_of : ℕ → DjSet → Bool
is_child_of p s = elim s.parent_set_id [ none ↦ Bool.false | some q ↦ q == p ]
