-- ===== src/Families/Tests.antt =====
-- Families at a small database: the sets 1 and 2 stand alone and are flagged as a pair, the sets 3
-- and 4 are under the virtual set 9.
use diggy.Prelude.{
  ℕ, ◌≡◌, refl, true, false, false, ◌&&◌, Option, none, some, List, [], ◌∷◌, map, arith, ◌==◌, leb,
  All, if◌then◌else◌,
}
use diggy.Prelude.Int.{ℤ, pos, ◌+ℤ◌, ◌-ℤ◌}
use diggy.Prelude.Text.{Text}
use diggy.Sets.Verdict.{auto_attach, flag}
use diggy.Families.Rows.{
  DjSet, Track, SetTrack, SetFlag, FamilyDb, Env, ok, err, duplicate_candidate, pending, rejected,
  value_error,
}
use diggy.Families.Metadata.{
  significant_tokens, pick_best_parent_title, most_frequent, pick_parent_channel, is_youtube_child,
  pick_parent_source_url, common_date, derive_metadata, new_links, children_of,
  sync_parent_metadata,
}
use diggy.Families.Results.{Ensures}
use diggy.Families.Parts.{merge_parts, track_key, is_blank, same_track, join, parts_from}
use diggy.Families.Parts.Timeline.{IsTimed}
use diggy.Families.Parts.Plays.{IsTimeline, merge_parts-IsTimeline}
use diggy.Families.Duplicates.{
  all_tracks, merge_duplicates, by_mtid, best_child, ref_timecode, median, offset_of,
  aligned_tracks, put_mtid, put_key, by_key, deduped,
}
use diggy.Families.Duplicates.Tracklist.{IsTracklist, merge_duplicates-IsTracklist}
use diggy.Families.Parents.{
  Parent, materialize_parent, attach_pair, detach_set_from_parent, attach_group_members, adopt,
  new_parent, create_parent, find_or_create_virtual_parent, tracks_of, is_parts_case, merged_tracks,
  merged_duration, adopt_all, delete_set,
}
use diggy.Families.Parents.Touches.{IsConfined, materialize_parent-IsConfined}
use diggy.Families.Parents.Real.{Keeps}
use diggy.Families.Parents.Safe.{detach_set_from_parent-KeepsReal}
use diggy.Families.Flags.{
  MatchResult, GroupMatchResult, attach_flag, reject_flag, resolve, apply_match_results,
  apply_pairs, group_dates_coherent, attached_group, extended_group, apply_group, apply_groups,
}
use diggy.Families.Flags.Final.{rejecting, IsResolved, IsFinal, Resolves-IsFinal}
use diggy.Families.Flags.Keep.{apply_match_results-KeepsReal}
use diggy.Families.Flags.Once.{FlagsOnce, Once, apply_match_results-FlagsOnce}
use diggy.Families.Forest.Shapes.{IsFamilyForest}
use diggy.Families.Forest.Attach.{IsAttached, attach_pair-IsAttached}
use diggy.Families.Forest.Detach.{IsDetached, detach_set_from_parent-IsDetached}
use diggy.Families.Forest.Accepts.{IsAttachable, attach_pair-accepts}

abbrev env : Env
env = record {
  normalize = λ t. t;
  is_alpha = λ c. leb b'a' c && leb c b'z';
  is_raw_channel_id = λ t. false;
  title_dates = λ t. [];
  copy_object = λ a b. true;
}

abbrev a_set : ℕ → Option ℕ → DjSet
a_set i parent = record {
  id = i;
  external_id = none;
  source = "youtube";
  source_url = none;
  title = b'a' ∷ b'b' ∷ [];
  played_date = some 100;
  duration_ms = some 600000;
  has_artwork = false;
  parent_set_id = parent;
  is_virtual = false;
  part_number = none;
  unreliable = false;
  channel = none;
  styles = [];
  event_date = none;
  channel_canonical = none;
}

abbrev a_track : Option ℕ → Option ℤ → Text → Track
a_track mtid timecode title = record {
  timecode_ms = timecode;
  raw_title = some title;
  raw_artist = none;
  is_id = false;
  trackid_music_track_id = mtid;
  catalog_id = none;
  label = none;
  end_time_ms = none;
}

abbrev at : ℕ → ℕ → Track → SetTrack
at i n t = record { set_id = i; position = n; track = t }

abbrev pair : SetFlag
pair = record {
  id = 1;
  set_id_a = 1;
  set_id_b = some 2;
  flag_type = duplicate_candidate;
  confidence = some 70;
  twin_rule = false;
  status = pending;
  resolved_by = none;
  resolved_at = none;
  group_key = none;
  member_set_ids = [];
}

abbrev db : FamilyDb
db = record {
  sets =
      a_set 1 none
      ∷ a_set 2 none
      ∷ a_set 3 (some 9)
      ∷ a_set 4 (some 9)
      ∷ record (a_set 9 none) { is_virtual = true }
      ∷ [];
  set_tracks =
      at 1 1 (a_track (some 7) (some (pos 10)) (b'x' ∷ []))
      ∷ at 1 2 (a_track (some 8) (some (pos 60)) (b'y' ∷ []))
      ∷ at 2 1 (a_track (some 7) (some (pos 12)) (b'x' ∷ []))
      ∷ [];
  set_artists = record { set_id = 1; artist_id = 5; role = some "dj"; position = none } ∷ [];
  set_flags = pair ∷ [];
  next_set_id = 10;
  next_flag_id = 2;
}

running : Unit {0}
unfolding best_child ref_timecode median offset_of aligned_tracks all_tracks put_mtid by_mtid
    put_key by_key deduped merge_duplicates resolve attach_flag reject_flag apply_pairs
    group_dates_coherent attached_group extended_group apply_group apply_groups apply_match_results
    significant_tokens pick_best_parent_title most_frequent pick_parent_channel is_youtube_child
    pick_parent_source_url common_date derive_metadata new_links children_of sync_parent_metadata
    adopt new_parent create_parent find_or_create_virtual_parent tracks_of is_parts_case
    merged_tracks merged_duration materialize_parent attach_pair adopt_all attach_group_members
    delete_set detach_set_from_parent track_key is_blank same_track join parts_from merge_parts ◌+ℤ◌
    ◌-ℤ◌
running = tt

abbrev tracks : ℕ → List Track
tracks = tracks_of db

abbrev first_set : DjSet
first_set = a_set 1 none

-- the track that both recordings have is there once, at the time of the first
merged_titles :
    map (λ t. t.raw_title) (merge_duplicates env tracks first_set (a_set 2 none ∷ []))
    ≡ some (b'x' ∷ []) ∷ some (b'y' ∷ []) ∷ []
unfolding running
merged_titles = refl

-- the last track of the first part is the first one of the second
parts :
    map
      (λ t. t.timecode_ms)
      (merge_parts env (first_set ∷ a_set 2 none ∷ []) (λ i.
        if i == 1
        then a_track (some 7) (some (pos 10)) [] ∷ []
        else a_track (some 7) (some (pos 0)) [] ∷ a_track (some 8) (some (pos 30)) [] ∷ []))
    ≡ some (pos 10) ∷ some (pos 600030) ∷ []
unfolding running
parts = refl

attached_pair :
    attach_pair env 1 2 db
    ≡ ok (record {
      parent_id = 10;
      created = true;
      db = (materialize_parent env 10 (create_parent env none none first_set (a_set 2 none) db)).db;
    })
unfolding attach_pair find_or_create_virtual_parent
attached_pair = refl

two_families : attach_pair env 3 9 db ≡ err value_error
unfolding running
two_families = refl

-- the family of 3 and 4 is dissolved with its parent
dissolved :
    map (λ s. s.id) (elim (detach_set_from_parent env 3 db) [ ok r ↦ r.db.sets | err e ↦ [] ])
    ≡ 1 ∷ 2 ∷ 3 ∷ 4 ∷ []
unfolding running
dissolved = refl

merge_duplicates-IsTracklist_example :
    IsTracklist env
      (all_tracks tracks first_set (a_set 2 none ∷ []))
      (merge_duplicates env tracks first_set (a_set 2 none ∷ []))
merge_duplicates-IsTracklist_example =
    merge_duplicates-IsTracklist env tracks first_set (a_set 2 none ∷ [])

abbrev playing : ℕ → List Track
playing i =
    a_track (some i) (some (pos 10)) []
    ∷ a_track none none []
    ∷ a_track (some 9) (some (pos 80)) []
    ∷ []

abbrev first_part : DjSet
first_part = record (a_set 1 none) { part_number = some 1 }

abbrev second_part : DjSet
second_part = record (a_set 2 none) { part_number = some 2 }

timed : All (IsTimed playing) (second_part ∷ first_part ∷ [])
timed = (
  record { duration = 600000; known = refl; in_order = (omega arith, (omega arith, omega arith)) },
  (
    record {
      duration = 600000;
      known = refl;
      in_order = (omega arith, (omega arith, omega arith));
    },
    tt,
  ),
)

merge_parts-IsTimeline_example :
    IsTimeline env playing
      (second_part ∷ first_part ∷ [])
      (merge_parts env (second_part ∷ first_part ∷ []) playing)
merge_parts-IsTimeline_example =
    merge_parts-IsTimeline env playing (second_part ∷ first_part ∷ []) timed

materialize_parent-IsConfined_example : IsConfined 9 db (materialize_parent env 9 db).db
materialize_parent-IsConfined_example = materialize_parent-IsConfined 9 env db

detach_set_from_parent-KeepsReal_example : Keeps (λ r. r.db) db (detach_set_from_parent env 3 db)
detach_set_from_parent-KeepsReal_example = detach_set_from_parent-KeepsReal env 3 db

abbrev results : List MatchResult
results =
    record { candidate_id = 2; verdict = auto_attach; confidence = 95 }
    ∷ record { candidate_id = 3; verdict = flag; confidence = 60 }
    ∷ record { candidate_id = 3; verdict = flag; confidence = 65 }
    ∷ []

abbrev groups : List GroupMatchResult
groups =
    record {
      group_key = b'g' ∷ [];
      member_set_ids = 1 ∷ 3 ∷ 4 ∷ [];
      confidence = 80;
      flag_type = duplicate_candidate;
    }
    ∷ []

-- the pair that is named twice has one flag, the group another
flagged :
    (elim (apply_match_results env 500 1 results groups db) [
      | ok s ↦ map (λ f. f.id) s.db.set_flags
      | err e ↦ []
    ])
    ≡ 1 ∷ 2 ∷ 3 ∷ []
unfolding running
flagged = refl

apply_match_results-KeepsReal_example :
    Keeps (λ r. r.db) db (apply_match_results env 500 1 results groups db)
apply_match_results-KeepsReal_example = apply_match_results-KeepsReal env 500 1 results groups db

one_pair : FlagsOnce db.set_flags
one_pair = record { ordered = refl; pairs = λ a b. ground arith; groups = λ key. omega arith }

apply_match_results-FlagsOnce_example :
    Ensures Once (apply_match_results env 500 1 results groups db)
apply_match_results-FlagsOnce_example =
    apply_match_results-FlagsOnce env 500 1 results groups db one_pair

-- flag 1 is rejected
rejected_flag : reject_flag 1 7 500 db ≡ ok (resolve 1 rejected 7 500 db)
unfolding running
rejected_flag = refl

Resolves-IsFinal_example :
    IsResolved 1 rejected 7 500 db (resolve 1 rejected 7 500 db)
    × ((other later : ℕ) → IsFinal env 1 other later (resolve 1 rejected 7 500 db))
Resolves-IsFinal_example =
    Resolves-IsFinal env 1 7 500 db (resolve 1 rejected 7 500 db) rejected
      (rejecting (resolve 1 rejected 7 500 db) rejected_flag)

forest : IsFamilyForest db
forest = record {
  placed = (refl, (refl, (refl, (refl, (refl, tt)))));
  unique = λ i. ground arith;
  fresh = (omega arith, (omega arith, (omega arith, (omega arith, (omega arith, tt)))));
}

attach_pair-IsAttached_example : Ensures (IsAttached 1 2) (attach_pair env 1 2 db)
attach_pair-IsAttached_example = attach_pair-IsAttached env 1 2 db forest

detach_set_from_parent-IsDetached_example :
    Ensures (λ r. IsDetached 3 r.parent_id r.db) (detach_set_from_parent env 3 db)
detach_set_from_parent-IsDetached_example = detach_set_from_parent-IsDetached env 3 db forest

attachable : IsAttachable 1 3 db first_set (a_set 3 (some 9))
attachable = record {
  found_a = refl;
  found_b = refl;
  two_sets = refl;
  real_a = refl;
  real_b = refl;
  agree = λ p q h k. ground arith;
}

attach_pair-accepts_example : (r : Parent) × (attach_pair env 1 3 db ≡ ok r)
attach_pair-accepts_example =
    attach_pair-accepts env 1 3 db first_set (a_set 3 (some 9)) forest attachable
