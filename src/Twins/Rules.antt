-- ===== src/Twins/Rules.antt =====
-- `decide_twin` of server/api/services/set_twin_rules.py and the word comparison under it, over
-- exact fractions in place of floats. Sets of words are lists without repetitions.
pub mod Decision
use diggy.Prelude.{
  ℕ, zero, suc, ◌+◌, ◌-◌, ◌*◌, min, max, Bool, true, false, not, ◌&&◌, ◌||◌, Option, none, some,
  List, [], ◌∷◌, ◌++◌, map, ltb, leb, ◌==◌, if◌then◌else◌, is_some, get_or, or_else, length, filter,
  any, all,
}
use diggy.Prelude.Int.{ℤ, pos, negsuc, sub_ℕ, ltb_ℤ, pos_part, neg_part}
use diggy.Prelude.Text.{Text, text_eq}
use diggy.Prelude.Distinct.{has, first_seen, common}
use diggy.Prelude.Sort.{sort_by}
use diggy.Sets.Ratio.{Ratio, at_least}
use diggy.Sets.Titles.{split_from, is_digit}
use diggy.Sets.Levenshtein.{levenshtein_ratio}
use diggy.Sets.Signals.{DateSignature, same_date, same_set, nonempty, share}
use diggy.Twins.Words.{generic_title_words}

pub record TwinInput : Type 0 where
  pub title : Option Text
  pub channel : Option Text
  pub channel_canonical : Option Text
  pub duration_ms : Option ℕ
  pub event_date : Option ℕ
  pub part_number : Option ℕ
  pub source_url : Option Text
  pub external_id : Option Text
  pub unreliable : Bool
  pub upload_date : Option ℕ

pub record ParsedTitle : Type 0 where
  pub dates : List DateSignature
  pub residue : Text

-- the two kinds of number that `_episode_number` reads
pub data EpisodeKind : Type 0 where
  marker trailing : EpisodeKind

pub record Episode : Type 0 where
  pub kind : EpisodeKind
  pub number : ℕ

-- What regular expressions, Unicode tables and the parser of URLs read off a text: `_parse_title`,
-- `_fold_title`, `_episode_number` and `video_id_from_url`.
pub record TwinEnv : Type 0 where
  pub parse_title : Option Text → ParsedTitle
  pub fold_title : Option Text → Text
  pub episode_number : Text → Option Episode
  pub video_id_from_url : Option Text → Option Text

pub data TwinVerdict : Type 0 where
  attach review nothing : TwinVerdict

pub data TwinStep : Type 0 where
  video date channel no_step : TwinStep

pub data Reason : Type 0 where
  other_is_unreliable same_video_id : Reason
  missing_duration different_part_numbers different_title_dates : Reason
  different_event_dates different_episode_numbers : Reason
  collaboration_marker number_in_one_title : List Text → Reason
  same_date_contained same_date_near_identical each_has_own_words : Reason
  before_the_event long_after_the_event : Reason
  short_title one_word_same_duration one_word_close_duration same_channel_contained : Reason
  not_enough_evidence ambiguous already_in_family youtube_side_truncated : Reason

pub record TwinSignals : Type 0 where
  pub cont : Ratio
  pub dd : Option Ratio
  pub both_own : Bool
  pub same_date : Bool
  pub same_channel : Bool
  pub lev : Option Ratio
  pub upload_delta_days : Option ℤ

pub record TwinDecision : Type 0 where
  pub verdict : TwinVerdict
  pub step : TwinStep
  pub reason : Reason
  pub signals : TwinSignals

abbrev words_of : Text → List Text
words_of t = split_from [] t

abbrev glued : List Text → Text
glued [] = []
glued (w ∷ ws) = w ++ glued ws

abbrev with_glued : List Text → List Text
with_glued [] = []
with_glued (w ∷ ws) = (w ∷ ws) ++ glued (w ∷ ws) ∷ []

unfoldable pub channel_words : TwinEnv → List (Option Text) → List Text
channel_words env [] = []
channel_words env (c ∷ cs) = with_glued (words_of (env.fold_title c)) ++ channel_words env cs

unfoldable pub significant_words : TwinEnv → List Text → Text → List Text
significant_words env excluded residue =
    filter (λ w. not (has text_eq w excluded) && not (has text_eq w generic_title_words))
      (first_seen text_eq (words_of (env.fold_title (some residue))))

unfoldable pub digit_words : List Text → List Text
digit_words words = filter (any is_digit) words

unfoldable pub own_words_pair_up : List Text → List Text → Bool
own_words_pair_up own_a own_b =
    all (λ w. leb 5 (length w) && any (λ c. at_least (levenshtein_ratio w c) 7 10) own_b) own_a

abbrev pub minus : List Text → List Text → List Text
minus a b = filter (λ w. not (has text_eq w b)) a

-- two values that are known and not the same
abbrev pub differs : Option ℕ → Option ℕ → Bool
differs (some a) (some b) = not (a == b)
differs _ _ = false

abbrev pub agrees : Option ℕ → Option ℕ → Bool
agrees (some a) (some b) = a == b
agrees _ _ = false

abbrev same_kind : EpisodeKind → EpisodeKind → Bool
same_kind marker marker = true
same_kind trailing trailing = true
same_kind _ _ = false

abbrev diverge : Option Episode → Option Episode → Bool
diverge (some a) (some b) = same_kind a.kind b.kind && not (a.number == b.number)
diverge _ _ = false

unfoldable pub episodes_diverge : TwinEnv → Text → Text → Bool
episodes_diverge env a b = diverge (env.episode_number a) (env.episode_number b)

-- equal texts, known and not empty
abbrev pub same_given : Option Text → Option Text → Bool
same_given (some (c ∷ a)) (some b) = text_eq (c ∷ a) b
same_given _ _ = false

unfoldable pub is_same_channel : TwinEnv → TwinInput → TwinInput → Bool
is_same_channel env a b =
    let fold_a = env.fold_title a.channel in
    same_given a.channel_canonical b.channel_canonical
    || nonempty fold_a && text_eq fold_a (env.fold_title b.channel)

-- a duration that is None or 0 is missing
abbrev pub known : Option ℕ → Bool
known none = false
known (some zero) = false
known (some (suc d)) = true

abbrev pub share_a_date : List DateSignature → List DateSignature → Bool
share_a_date a b = nonempty (common same_date a b)

unfoldable pub separation_reason :
    TwinEnv → TwinInput → TwinInput → ParsedTitle → ParsedTitle → Option Reason
separation_reason env yt other title_yt title_other =
    if not (known yt.duration_ms) || not (known other.duration_ms)
    then some missing_duration
    else (if differs yt.part_number other.part_number
        then some different_part_numbers
        else (if nonempty title_yt.dates
              && nonempty title_other.dates
              && not (share_a_date title_yt.dates title_other.dates)
            then some different_title_dates
            else (if differs yt.event_date other.event_date
                then some different_event_dates
                else (if episodes_diverge env title_yt.residue title_other.residue
                    then some different_episode_numbers
                    else none))))
