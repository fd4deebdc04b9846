-- ===== src/Sets/Signals/Symmetric.antt =====
-- Which signals do not depend on which set is called the first.
use diggy.Prelude.{
  ℕ, ◌≡◌, refl, ap, ◌∙◌, min, Bool, true, false, not, ◌&&◌, ◌||◌, Option, none, some, List, [], ◌∷◌,
  arith, all, length, get_or,
}
use diggy.Prelude.Text.{Text, text_eq}
use diggy.Prelude.Distinct.{has}
use diggy.Sets.Ratio.{round4}
use diggy.Sets.Titles.{title_number_set}
use diggy.Sets.Titles.Laws.{token_set_ratio-bounds}
use diggy.Sets.Levenshtein.Bounds.{levenshtein_ratio-IsScore}
use diggy.Sets.Verdict.{MatchSignals}
use diggy.Sets.Signals.{
  SetData, DateSignature, same_date, same_set, nonempty, played_gap, select_date_gap, distance,
  same_head, same_some, fold_ratio, overlap_of, at_most_a_day, compute_signals,
}

same_set_comm {ℓ} :
    {A : Type ℓ} (eq : A → A → Bool) (xs ys : List A) → same_set eq xs ys ≡ same_set eq ys xs
same_set_comm eq xs ys = and_comm (all (λ x. has eq x ys) xs) (all (λ y. has eq y xs) ys)
  where
    and_comm : (p q : Bool) → p && q ≡ q && p
    and_comm p q = ground arith

-- two empty sets are the only ones that are the same and empty
same_set-nonempty {ℓ} :
    {A : Type ℓ} (eq : A → A → Bool) (xs ys : List A)
    → nonempty xs && same_set eq xs ys ≡ nonempty ys && same_set eq ys xs
same_set-nonempty eq [] [] = refl
same_set-nonempty eq [] (y ∷ ys) = refl
same_set-nonempty eq (x ∷ xs) [] = refl
same_set-nonempty eq (x ∷ xs) (y ∷ ys) = same_set_comm eq (x ∷ xs) (y ∷ ys)

distance_comm : (a b : ℕ) → distance a b ≡ distance b a
distance_comm a b = omega arith

played_gap_comm : (a b : Option ℕ) → played_gap a b ≡ played_gap b a
played_gap_comm none none = refl
played_gap_comm none (some b) = refl
played_gap_comm (some a) none = refl
played_gap_comm (some a) (some b) =
    ap (λ n. record { gap_days = some n; both_event_reliable = false }) (distance_comm a b)

select_date_gap_comm :
    (event_a event_b played_a played_b : Option ℕ)
    → select_date_gap event_a event_b played_a played_b
      ≡ select_date_gap event_b event_a played_b played_a
unfolding select_date_gap
select_date_gap_comm none none p q = played_gap_comm p q
select_date_gap_comm none (some b) p q = played_gap_comm p q
select_date_gap_comm (some a) none p q = played_gap_comm p q
select_date_gap_comm (some a) (some b) p q =
    ap (λ n. record { gap_days = some n; both_event_reliable = true }) (distance_comm a b)

same_head_comm : (a b : List ℕ) → same_head a b ≡ same_head b a
same_head_comm [] [] = refl
same_head_comm [] (b ∷ bs) = refl
same_head_comm (a ∷ as') [] = refl
same_head_comm (a ∷ as') (b ∷ bs) = ground arith

same_some_comm : (a b : Option ℕ) → same_some a b ≡ same_some b a
same_some_comm none none = refl
same_some_comm none (some b) = refl
same_some_comm (some a) none = refl
same_some_comm (some a) (some b) = ground arith

fold_ratio_comm : (a b : Text) → fold_ratio a b ≡ fold_ratio b a
fold_ratio_comm [] [] = refl
fold_ratio_comm [] (d ∷ b) = refl
fold_ratio_comm (c ∷ a) [] = refl
fold_ratio_comm (c ∷ a) (d ∷ b) =
    ap (λ r. round4 r.num r.den) (levenshtein_ratio-IsScore (c ∷ a) (d ∷ b)).1

text_eq_comm : (a b : Text) → text_eq a b ≡ text_eq b a
text_eq_comm [] [] = refl
text_eq_comm [] (d ∷ b) = refl
text_eq_comm (c ∷ a) [] = refl
text_eq_comm (c ∷ a) (d ∷ b) = ground (arith, text_eq_comm a b)

fold_equal_comm : (a b : Text) → nonempty a && text_eq a b ≡ nonempty b && text_eq b a
fold_equal_comm [] [] = refl
fold_equal_comm [] (d ∷ b) = refl
fold_equal_comm (c ∷ a) [] = refl
fold_equal_comm (c ∷ a) (d ∷ b) = text_eq_comm (c ∷ a) (d ∷ b)

diverge_comm :
    (a b : List DateSignature)
    → nonempty a && nonempty b && not (same_set same_date a b)
      ≡ nonempty b && nonempty a && not (same_set same_date b a)
diverge_comm a b = ground (arith, same_set_comm same_date a b)

-- All that decides between two sets, but for the two scores of shared tracks.
pub record SameSignals (s t : MatchSignals) : Type 0 where
  pub overlap : s.overlap ≡ t.overlap
  pub title_sim : s.title_sim ≡ t.title_sim
  pub date_match : s.date_match ≡ t.date_match
  pub first_track_match : s.first_track_match ≡ t.first_track_match
  pub date_gap_days : s.date_gap_days ≡ t.date_gap_days
  pub both_event_reliable : s.both_event_reliable ≡ t.both_event_reliable
  pub title_dates_diverge : s.title_dates_diverge ≡ t.title_dates_diverge
  pub shared_count : s.shared_count ≡ t.shared_count
  pub title_number_match : s.title_number_match ≡ t.title_number_match
  pub title_fold_equal : s.title_fold_equal ≡ t.title_fold_equal
  pub title_fold_ratio : s.title_fold_ratio ≡ t.title_fold_ratio
  pub same_reliable_date : s.same_reliable_date ≡ t.same_reliable_date

-- The overlap, the title, the dates and the numbers say the same of two sets whichever comes first.
pub compute_signals-SameSignals :
    (weight : ℕ → ℕ) (a b : SetData) (shared : ℕ)
    → SameSignals (compute_signals weight a b shared) (compute_signals weight b a shared)
unfolding compute_signals
compute_signals-SameSignals weight a b shared =
    let gap = select_date_gap_comm a.event_date b.event_date a.played_date b.played_date in
    let m = length a.identified_mtids in
    let n = length b.identified_mtids in
    let shortest : min m n ≡ min n m = omega arith in
    record {
      overlap = ap (λ k. overlap_of shared k) shortest;
      title_sim =
          (token_set_ratio-bounds (get_or a.normalized_title []) (get_or b.normalized_title [])).0;
      date_match = ap (λ g. at_most_a_day g.gap_days) gap;
      first_track_match = same_head_comm a.identified_mtids b.identified_mtids;
      date_gap_days = ap (λ g. g.gap_days) gap;
      both_event_reliable = ap (λ g. g.both_event_reliable) gap;
      title_dates_diverge = diverge_comm a.title_dates b.title_dates;
      shared_count = refl;
      title_number_match =
          same_set-nonempty text_eq (title_number_set a.normalized_title)
            (title_number_set b.normalized_title);
      title_fold_equal = fold_equal_comm a.title_fold b.title_fold;
      title_fold_ratio = fold_ratio_comm a.title_fold b.title_fold;
      same_reliable_date =
          ap (λ p. p || same_some a.event_date b.event_date)
            (same_set-nonempty same_date a.title_dates b.title_dates)
          ∙ ap (λ q. nonempty b.title_dates && same_set same_date b.title_dates a.title_dates || q)
              (same_some_comm a.event_date b.event_date);
    }
