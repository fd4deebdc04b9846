-- ===== src/Twins/Tests.antt =====
-- The control of twins at a small database: set 2 links the video of the YouTube set 1, set 3 is
-- the same evening under the same words.
use diggy.Prelude.{ℕ, ◌≡◌, refl, true, false, Option, none, some, List, [], ◌∷◌, map, arith, get_or}
use diggy.Prelude.Int.{◌+ℤ◌, ◌-ℤ◌}
use diggy.Prelude.Text.{Text}
use diggy.Families.Rows.{DjSet, FamilyDb, Env, ok, err, get_set}
use diggy.Families.Results.{Ensures}
use diggy.Families.Parents.Real.{KeepsReal}
use diggy.Families.Flags.Once.{FlagsOnce}
use diggy.Families.Forest.Shapes.{IsFamilyForest}
use diggy.Sets.Levenshtein.{fill_row, rows_from, levenshtein, levenshtein_ratio}
use diggy.Sets.Ratio.{at_least, corr_at_least, round4}
use diggy.Sets.Titles.{split_from, tokens}
use diggy.Twins.Dates.{date_of, signature_dates}
use diggy.Twins.Rules.{
  TwinInput, TwinEnv, channel_words, significant_words, digit_words, own_words_pair_up,
  episodes_diverge, is_same_channel, separation_reason,
}
use diggy.Twins.Rules.Decision.{
  compare, gap_at_most, contained, words_ratio, near_identical, lev_signal, date_step,
  upload_delta_days, channel_words_step, channel_step, match_steps, twin_separation, decide_twin,
}
use diggy.Twins.Choice.{
  Evaluated, Choice, is_youtube, to_input, lowest_id, contend, contested_of, choose,
}
use diggy.Twins.Urls.{canonical_video_urls}
use diggy.Twins.Search.{
  video_candidates, in_duration_window, date_candidates, channel_candidates, is_truncated,
  search_candidates, decide_rows, evaluated_of, evaluate,
}
use diggy.Twins.Reconcile.{
  Winner, family_of, families_with_decision, youtube_side_objection, settled, plan_twin_for_set,
  apply_twin_plan, reconcile_twins_for_set, reconcile_twins_best_effort,
}
use diggy.Families.Parents.{
  adopt, new_parent, create_parent, find_or_create_virtual_parent, tracks_of, is_parts_case,
  merged_tracks, merged_duration, materialize_parent, attach_pair, adopt_all, attach_group_members,
  delete_set, detach_set_from_parent,
}
use diggy.Families.Metadata.{
  significant_tokens, pick_best_parent_title, most_frequent, pick_parent_channel, is_youtube_child,
  pick_parent_source_url, common_date, derive_metadata, new_links, children_of,
  sync_parent_metadata,
}
use diggy.Families.Parts.{track_key, is_blank, same_track, join, parts_from, merge_parts}
use diggy.Families.Duplicates.{
  best_child, ref_timecode, median, offset_of, aligned_tracks, all_tracks, put_mtid, by_mtid,
  put_key, by_key, deduped, merge_duplicates,
}
use diggy.Twins.Rules.Decision.Evidence.{is_attach, HasTwinEvidence, decide_twin-HasTwinEvidence}
use diggy.Twins.Choice.OneFamily.{IsCandidate, Settled, choose-Settled}
use diggy.Twins.Reconcile.Keep.{reconcile_twins_best_effort-KeepsReal}
use diggy.Twins.Reconcile.Evidence.{HasTwin, plan_twin_for_set-HasTwin}
use diggy.Twins.Reconcile.Once.{IsOnce, reconcile_twins_for_set-FlagsOnce}

abbrev env : Env
env = record {
  normalize = λ t. t;
  is_alpha = λ c. true;
  is_raw_channel_id = λ t. false;
  title_dates = λ t. [];
  copy_object = λ a b. true;
}

abbrev twin_env : TwinEnv
twin_env = record {
  parse_title = λ t. record { dates = []; residue = get_or t [] };
  fold_title = λ t. get_or t [];
  episode_number = λ t. none;
  video_id_from_url = λ url. url;
}

abbrev a_set : ℕ → Option Text → Option Text → DjSet
a_set i video url = record {
  id = i;
  external_id = video;
  source = "trackid";
  source_url = url;
  title = b'a' ∷ b'b' ∷ b' ' ∷ b'c' ∷ b'd' ∷ [];
  played_date = some 100;
  duration_ms = some 600000;
  has_artwork = false;
  parent_set_id = none;
  is_virtual = false;
  part_number = none;
  unreliable = false;
  channel = none;
  styles = [];
  event_date = some 90;
  channel_canonical = none;
}

abbrev youtube_set : DjSet
youtube_set = record (a_set 1 (some (b'v' ∷ [])) none) { source = "youtube" }

abbrev db : FamilyDb
db = record {
  sets = youtube_set ∷ a_set 2 none (some (b'v' ∷ [])) ∷ a_set 3 none none ∷ [];
  set_tracks = [];
  set_artists = [];
  set_flags = [];
  next_set_id = 4;
  next_flag_id = 1;
}

running : Unit {0}
unfolding fill_row rows_from levenshtein levenshtein_ratio at_least corr_at_least round4 split_from
    tokens date_of signature_dates channel_words significant_words digit_words own_words_pair_up
    episodes_diverge is_same_channel separation_reason compare gap_at_most contained words_ratio
    near_identical lev_signal date_step upload_delta_days channel_words_step channel_step
    match_steps twin_separation decide_twin is_youtube is_youtube_child to_input lowest_id contend
    contested_of choose canonical_video_urls video_candidates in_duration_window date_candidates
    channel_candidates is_truncated search_candidates decide_rows evaluated_of evaluate family_of
    families_with_decision youtube_side_objection settled plan_twin_for_set apply_twin_plan
    reconcile_twins_for_set reconcile_twins_best_effort adopt new_parent create_parent
    find_or_create_virtual_parent tracks_of is_parts_case merged_tracks merged_duration
    materialize_parent attach_pair adopt_all attach_group_members delete_set detach_set_from_parent
    significant_tokens pick_best_parent_title most_frequent pick_parent_channel
    pick_parent_source_url common_date derive_metadata new_links children_of sync_parent_metadata
    track_key is_blank same_track join parts_from merge_parts best_child ref_timecode median
    offset_of aligned_tracks all_tracks put_mtid by_mtid put_key by_key deduped merge_duplicates
    ◌+ℤ◌ ◌-ℤ◌
running = tt

-- Set 2 is attached to its video, and a flag tells so.
attached_twin :
    (elim (reconcile_twins_for_set env twin_env 500 2 db) [
      | ok r ↦ map (λ s. s.parent_set_id) r.db.sets
      | err e ↦ []
    ])
    ≡ some 4 ∷ some 4 ∷ none ∷ none ∷ []
unfolding running
attached_twin = refl

-- The second control of the same set finds the family and writes nothing.
once :
    map
      (λ f. f.set_id_b)
      (reconcile_twins_best_effort env twin_env 501 2
        (reconcile_twins_best_effort env twin_env 500 2 db)).set_flags
    ≡ some 2 ∷ []
unfolding running
once = refl

reconcile_twins_best_effort-KeepsReal_example :
    KeepsReal db (reconcile_twins_best_effort env twin_env 500 2 db)
reconcile_twins_best_effort-KeepsReal_example =
    reconcile_twins_best_effort-KeepsReal env twin_env 500 2 db

forest : IsFamilyForest db
forest = record {
  placed = (refl, (refl, (refl, tt)));
  unique = λ i. ground arith;
  fresh = (omega arith, (omega arith, (omega arith, tt)));
}

no_flags : FlagsOnce db.set_flags
no_flags = record { ordered = refl; pairs = λ a b. omega arith; groups = λ key. omega arith }

reconcile_twins_for_set-FlagsOnce_example :
    Ensures IsOnce (reconcile_twins_for_set env twin_env 500 2 db)
reconcile_twins_for_set-FlagsOnce_example =
    reconcile_twins_for_set-FlagsOnce env twin_env 500 2 db forest no_flags

abbrev by_day : TwinInput
by_day = to_input (a_set 3 none none)

attached_by_date : is_attach (decide_twin twin_env (to_input youtube_set) by_day).verdict ≡ true
unfolding running
attached_by_date = refl

decide_twin-HasTwinEvidence_example :
    (by_day.unreliable ≡ false) × HasTwinEvidence twin_env (to_input youtube_set) by_day
decide_twin-HasTwinEvidence_example =
    decide_twin-HasTwinEvidence twin_env (to_input youtube_set) by_day attached_by_date

abbrev candidate : DjSet → Evaluated
candidate c = record { row = c; decision = decide_rows twin_env youtube_set c }

abbrev choice : Choice
choice = record {
  target = candidate (a_set 2 none (some (b'v' ∷ [])));
  attached = true;
  reason = (decide_rows twin_env youtube_set (a_set 2 none (some (b'v' ∷ [])))).reason;
  contested = candidate (a_set 2 none (some (b'v' ∷ []))) ∷ [];
}

abbrev candidates : List Evaluated
candidates = candidate (a_set 3 none none) ∷ candidate (a_set 2 none (some (b'v' ∷ []))) ∷ []

chosen : choose youtube_set candidates ≡ some choice
unfolding running
chosen = refl

choose-Settled_example :
    IsCandidate candidates choice.target × Settled youtube_set candidates choice
choose-Settled_example = choose-Settled youtube_set candidates choice chosen refl

abbrev winner : Winner
winner = record {
  winner_id = 1;
  family_id = 1;
  attaching = true;
  step = (decide_rows twin_env (a_set 2 none (some (b'v' ∷ []))) youtube_set).step;
  reason = (decide_rows twin_env (a_set 2 none (some (b'v' ∷ []))) youtube_set).reason;
  signals = (decide_rows twin_env (a_set 2 none (some (b'v' ∷ []))) youtube_set).signals;
}

planned_twin : (plan_twin_for_set twin_env 2 db).winner ≡ some winner
unfolding running
planned_twin = refl

plan_twin_for_set-HasTwin_example :
    (row : DjSet) × (get_set 2 db ≡ some row) × HasTwin twin_env row db winner
plan_twin_for_set-HasTwin_example =
    plan_twin_for_set-HasTwin twin_env 2 db winner forest planned_twin refl
