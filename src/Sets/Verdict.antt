-- ===== src/Sets/Verdict.antt =====
-- `decide_verdict` of server/api/services/set_dedup_service.py and its thresholds.
pub mod Evidence
use diggy.Prelude.{
  ℕ, ◌≡◌, ◌≢◌, ◌≤◌, ◌<◌, ◌⊎◌, Bool, true, false, not, ◌&&◌, ◌||◌, Option, none, some, arith, ltb,
  leb, ◌==◌, if◌then◌else◌,
}
use diggy.Sets.Ratio.{Ratio, at_least, Correlation, corr_at_least}

pub record MatchSignals : Type 0 where
  pub overlap : Ratio
  pub title_sim : Ratio
  pub date_match : Bool
  pub first_track_match : Bool
  pub weighted_overlap : Ratio
  pub date_gap_days : Option ℕ
  pub order_corr : Option Correlation
  pub both_event_reliable : Bool
  pub title_dates_diverge : Bool
  pub shared_count : ℕ
  pub title_number_match : Bool
  pub title_fold_equal : Bool
  pub title_fold_ratio : ℕ
  pub same_reliable_date : Bool

pub data MatchVerdict : Type 0 where
  auto_attach flag nothing : MatchVerdict

pub data FlagType : Type 0 where
  duplicate_candidate : FlagType

pub record Verdict : Type 0 where
  pub verdict : MatchVerdict
  pub flag_type : Option FlagType

-- FLAG_CONFIDENCE_THRESHOLD = 0.45, TITLE_NEAR_DUP_LEV_RATIO = 0.90
abbrev pub flag_confidence_threshold : ℕ
flag_confidence_threshold = 4500

abbrev pub title_near_dup_lev_ratio : ℕ
title_near_dup_lev_ratio = 9000

abbrev pub auto_attach_max_date_gap_days : ℕ
auto_attach_max_date_gap_days = 2

abbrev pub identical_attach_min_shared : ℕ
identical_attach_min_shared = 6

abbrev pub same_episode_attach_min_shared : ℕ
same_episode_attach_min_shared = 4

abbrev pub full_inclusion_min_shared : ℕ
full_inclusion_min_shared = 4

abbrev pub gap_above : ℕ → Option ℕ → Bool
gap_above n none = false
gap_above n (some gap) = ltb n gap

abbrev pub distinct_parts : Option ℕ → Option ℕ → Bool
distinct_parts (some a) (some b) = not (a == b)
distinct_parts _ _ = false

-- order_corr is not None and order_corr >= IDENTICAL_ATTACH_ORDER, which is 0.95
abbrev pub same_order : Option Correlation → Bool
same_order none = false
same_order (some c) = corr_at_least c 95 100

-- order_corr is None or order_corr >= IDENTICAL_ATTACH_ORDER
abbrev pub order_not_refuted : Option Correlation → Bool
order_not_refuted none = true
order_not_refuted (some c) = corr_at_least c 95 100

abbrev pub title_identical : MatchSignals → Bool
title_identical s = at_least s.title_sim 1 1 || s.title_fold_equal

-- The three hard separation rules.
unfoldable pub separated : MatchSignals → Option ℕ → Option ℕ → Bool
separated s a b =
    s.title_dates_diverge
    || s.both_event_reliable && gap_above 1 s.date_gap_days
    || distinct_parts a b

-- The attach vectors, in the code's order.
unfoldable pub identical_tracklist : MatchSignals → Bool
identical_tracklist s =
    at_least s.overlap 95 100
    && leb identical_attach_min_shared s.shared_count
    && same_order s.order_corr

unfoldable pub same_title_same_day : MatchSignals → Bool
same_title_same_day s =
    title_identical s
    && s.date_match
    && at_least s.overlap 70 100
    && leb identical_attach_min_shared s.shared_count
    && same_order s.order_corr

unfoldable pub same_episode : MatchSignals → Bool
same_episode s =
    title_identical s
    && s.title_number_match
    && s.date_match
    && at_least s.overlap 50 100
    && leb same_episode_attach_min_shared s.shared_count
    && same_order s.order_corr

unfoldable pub same_title_same_opener : MatchSignals → Bool
same_title_same_opener s =
    title_identical s
    && s.first_track_match
    && at_least s.overlap 80 100
    && leb identical_attach_min_shared s.shared_count
    && same_order s.order_corr

unfoldable pub full_inclusion : MatchSignals → Bool
full_inclusion s =
    title_identical s
    && s.first_track_match
    && at_least s.overlap 1 1
    && leb full_inclusion_min_shared s.shared_count
    && order_not_refuted s.order_corr

unfoldable pub near_duplicate_title : MatchSignals → Bool
near_duplicate_title s = s.same_reliable_date && leb title_near_dup_lev_ratio s.title_fold_ratio

unfoldable pub high_overlap : MatchSignals → Bool
high_overlap s = at_least s.overlap 80 100 && (at_least s.title_sim 50 100 || s.date_match)

abbrev pub attach : Verdict
attach = record { verdict = auto_attach; flag_type = none }

abbrev pub flagged : Verdict
flagged = record { verdict = flag; flag_type = some duplicate_candidate }

abbrev pub no_verdict : Verdict
no_verdict = record { verdict = nothing; flag_type = none }

-- the fall-through after the attach vectors
abbrev pub weak_verdict : MatchSignals → ℕ → Verdict
weak_verdict s confidence =
    if leb flag_confidence_threshold confidence
    then flagged
    else (if at_least s.title_sim 90 100 && at_least s.overlap 30 100 then flagged else no_verdict)

unfoldable pub decide_verdict : MatchSignals → ℕ → Option ℕ → Option ℕ → Verdict
decide_verdict s confidence a b =
    if separated s a b
    then no_verdict
    else (if identical_tracklist s
          || same_title_same_day s
          || same_episode s
          || same_title_same_opener s
          || full_inclusion s
          || near_duplicate_title s
        then attach
        else (if high_overlap s
            then (if gap_above auto_attach_max_date_gap_days s.date_gap_days
                then flagged
                else attach)
            else weak_verdict s confidence))
