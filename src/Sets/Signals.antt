-- ===== src/Sets/Signals.antt =====
-- `compute_signals` of server/api/services/set_dedup_service.py and what it calls. The full dates
-- in a raw title and its folded form, which regular expressions and Unicode tables read off it
-- there (`_title_date_signatures`, `search_fold`), are part of the data of a set here. Dates are
-- numbers of days.
pub mod Symmetric
pub mod Scored
pub mod Same
use diggy.Prelude.{
  ℕ, zero, suc, ◌+◌, ◌-◌, ◌*◌, min, Bool, true, false, not, ◌&&◌, ◌||◌, Option, none, some, List,
  [], ◌∷◌, leb, ltb, ◌==◌, if◌then◌else◌, is_some, get_or, any, all, length, filter,
}
use diggy.Prelude.Int.{ℤ, pos, sub_ℕ}
use diggy.Prelude.Text.{Text, text_eq}
use diggy.Prelude.Distinct.{has, first_seen, common}
use diggy.Sets.Ratio.{Ratio, Correlation, round4}
use diggy.Sets.Titles.{token_set_ratio, title_number_set}
use diggy.Sets.Levenshtein.{levenshtein_ratio}
use diggy.Sets.Verdict.{MatchSignals}

-- (year, frozenset({day, month})), the lower of the two first
pub record DateSignature : Type 0 where
  pub year : ℕ
  pub low : ℕ
  pub high : ℕ

pub record SetData : Type 0 where
  pub normalized_title : Option Text
  pub played_date : Option ℕ
  pub event_date : Option ℕ
  pub identified_mtids : List ℕ
  pub title_dates : List DateSignature
  pub title_fold : Text

abbrev pub same_date : DateSignature → DateSignature → Bool
same_date a b = a.year == b.year && a.low == b.low && a.high == b.high

-- equality of two sets, each given by its elements
abbrev pub same_set {ℓ} : {A : Type ℓ} → (A → A → Bool) → List A → List A → Bool
same_set eq xs ys = all (λ x. has eq x ys) xs && all (λ y. has eq y xs) ys

abbrev pub nonempty {ℓ} : {A : Type ℓ} → List A → Bool
nonempty [] = false
nonempty (x ∷ xs) = true

abbrev pub total_weight : (ℕ → ℕ) → List ℕ → ℕ
total_weight weight [] = 0
total_weight weight (m ∷ ms) = weight m + total_weight weight ms

abbrev pub share : ℕ → ℕ → Ratio
share part zero = record { num = 0; den = 1 }
share part (suc whole) = record { num = part; den = suc whole }

-- `_weighted_overlap`. `weight m` is the weight of track `m` (`_idf_weight` of the number of sets
-- that hold it), in a unit small enough to count it in.
unfoldable pub weighted_overlap_of : (ℕ → ℕ) → List ℕ → List ℕ → Ratio
weighted_overlap_of weight mtids_a mtids_b =
    let set_a = first_seen ◌==◌ mtids_a in
    let set_b = first_seen ◌==◌ mtids_b in
    if leb (length mtids_a) (length mtids_b)
    then share (total_weight weight (common ◌==◌ set_a set_b)) (total_weight weight set_a)
    else share (total_weight weight (common ◌==◌ set_b set_a)) (total_weight weight set_b)

-- the rank of `m`
abbrev pub index_of : ℕ → List ℕ → ℕ
index_of m [] = 0
index_of m (x ∷ xs) = let later = suc (index_of m xs) in if x == m then 0 else later

abbrev pub distance : ℕ → ℕ → ℕ
distance a b = a - b + (b - a)

abbrev pub squares : List ℕ → List ℕ → List ℕ → ℕ
squares by_a by_b [] = 0
squares by_a by_b (m ∷ ms) =
    let d = distance (index_of m by_a) (index_of m by_b) in d * d + squares by_a by_b ms

abbrev pub spearman : ℕ → ℕ → Correlation
spearman n d_squared = record {
  num = sub_ℕ (n * (n * n - 1)) (6 * d_squared);
  den = n * (n * n - 1);
}

-- `_order_correlation`: the shared tracks in the order of either list, by first occurrence
unfoldable pub order_correlation : List ℕ → List ℕ → Option Correlation
order_correlation mtids_a mtids_b =
    let by_a = common ◌==◌ (first_seen ◌==◌ mtids_a) mtids_b in
    let by_b = common ◌==◌ (first_seen ◌==◌ mtids_b) mtids_a in
    if ltb (length by_a) 3 then none else some (spearman (length by_a) (squares by_a by_b by_a))

pub record DateGap : Type 0 where
  pub gap_days : Option ℕ
  pub both_event_reliable : Bool

abbrev pub played_gap : Option ℕ → Option ℕ → DateGap
played_gap (some a) (some b) = record {
  gap_days = some (distance a b);
  both_event_reliable = false;
}
played_gap _ _ = record { gap_days = none; both_event_reliable = false }

-- `_select_date_gap`
unfoldable pub select_date_gap : Option ℕ → Option ℕ → Option ℕ → Option ℕ → DateGap
select_date_gap (some a) (some b) played_a played_b = record {
  gap_days = some (distance a b);
  both_event_reliable = true;
}
select_date_gap _ _ played_a played_b = played_gap played_a played_b

abbrev pub at_most_a_day : Option ℕ → Bool
at_most_a_day none = false
at_most_a_day (some gap) = leb gap 1

abbrev pub same_head : List ℕ → List ℕ → Bool
same_head (a ∷ _) (b ∷ _) = a == b
same_head _ _ = false

abbrev pub same_some : Option ℕ → Option ℕ → Bool
same_some (some a) (some b) = a == b
same_some _ _ = false

abbrev pub overlap_of : ℕ → ℕ → Ratio
overlap_of shared min_len = share shared min_len

-- `_levenshtein_ratio(fold_a, fold_b) if fold_a and fold_b else 0.0`, rounded
abbrev pub fold_ratio : Text → Text → ℕ
fold_ratio a b =
    if nonempty a && nonempty b then (let r = levenshtein_ratio a b in round4 r.num r.den) else 0

unfoldable pub compute_signals : (ℕ → ℕ) → SetData → SetData → ℕ → MatchSignals
compute_signals weight a b shared_count =
    let gap = select_date_gap a.event_date b.event_date a.played_date b.played_date in
    let sig_a = a.title_dates in
    let sig_b = b.title_dates in
    let nums_a = title_number_set a.normalized_title in
    let nums_b = title_number_set b.normalized_title in
    record {
      overlap =
          overlap_of shared_count (min (length a.identified_mtids) (length b.identified_mtids));
      title_sim = token_set_ratio (get_or a.normalized_title []) (get_or b.normalized_title []);
      date_match = at_most_a_day gap.gap_days;
      first_track_match = same_head a.identified_mtids b.identified_mtids;
      weighted_overlap = weighted_overlap_of weight a.identified_mtids b.identified_mtids;
      date_gap_days = gap.gap_days;
      order_corr = order_correlation a.identified_mtids b.identified_mtids;
      both_event_reliable = gap.both_event_reliable;
      title_dates_diverge =
          nonempty sig_a && nonempty sig_b && not (same_set same_date sig_a sig_b);
      shared_count = shared_count;
      title_number_match = nonempty nums_a && same_set text_eq nums_a nums_b;
      title_fold_equal = nonempty a.title_fold && text_eq a.title_fold b.title_fold;
      title_fold_ratio = fold_ratio a.title_fold b.title_fold;
      same_reliable_date =
          nonempty sig_a && same_set same_date sig_a sig_b || same_some a.event_date b.event_date;
    }
