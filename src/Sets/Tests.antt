-- ===== src/Sets/Tests.antt =====
-- The matching on small sets.
use diggy.Prelude.{ℕ, ◌≤◌, ◌≡◌, refl, false, none, some, [], ◌∷◌, arith}
use diggy.Prelude.Text.{Text}
use diggy.Sets.Ratio.{at_least, corr_at_least, round4}
use diggy.Sets.Titles.{tokens, token_set_ratio, title_number_set, split_from, digit_runs}
use diggy.Sets.Levenshtein.{levenshtein, levenshtein_ratio, rows_from, fill_row}
use diggy.Sets.Levenshtein.Distance.Script.{Script, levenshtein-shortest}
use diggy.Sets.Verdict.{
  auto_attach, separated, identical_tracklist, same_title_same_day, same_episode,
  same_title_same_opener, full_inclusion, near_duplicate_title, high_overlap, decide_verdict,
}
use diggy.Sets.Verdict.Evidence.{NotSeparated, HasAttachEvidence, decide_verdict-HasAttachEvidence}
use diggy.Sets.Signals.{
  SetData, compute_signals, weighted_overlap_of, order_correlation, select_date_gap,
}
use diggy.Sets.Signals.Same.{compute_signals-attach}
use diggy.Sets.Confidence.{date_factor, order_component, base_num, compute_confidence}

abbrev kitten : Text
kitten = b'k' ∷ b'i' ∷ b't' ∷ b't' ∷ b'e' ∷ b'n' ∷ []

abbrev sitting : Text
sitting = b's' ∷ b'i' ∷ b't' ∷ b't' ∷ b'i' ∷ b'n' ∷ b'g' ∷ []

matching : Unit {0}
unfolding levenshtein levenshtein_ratio rows_from fill_row tokens token_set_ratio title_number_set
    split_from digit_runs compute_signals weighted_overlap_of order_correlation select_date_gap
    separated identical_tracklist same_title_same_day same_episode same_title_same_opener
    full_inclusion near_duplicate_title high_overlap decide_verdict at_least corr_at_least round4
    order_component date_factor base_num compute_confidence
matching = tt

three_edits : levenshtein kitten sitting ≡ 3
unfolding matching
three_edits = refl

levenshtein-shortest_example :
    Script kitten sitting (levenshtein kitten sitting)
    × ((n : ℕ) → Script kitten sitting n → levenshtein kitten sitting ≤ n)
levenshtein-shortest_example = levenshtein-shortest kitten sitting

-- "a 124", "124 b"
abbrev title_a : Text
title_a = b'a' ∷ 32 ∷ b'1' ∷ b'2' ∷ b'4' ∷ []

abbrev title_b : Text
title_b = b'1' ∷ b'2' ∷ b'4' ∷ 32 ∷ b'b' ∷ []

shared_word : token_set_ratio title_a title_b ≡ record { num = 1; den = 3 }
unfolding matching
shared_word = refl

episode : title_number_set (some title_a) ≡ (b'1' ∷ b'2' ∷ b'4' ∷ []) ∷ []
unfolding matching
episode = refl

abbrev upload : SetData
upload = record {
  normalized_title = some title_a;
  played_date = some 19000;
  event_date = none;
  identified_mtids = 11 ∷ 12 ∷ 13 ∷ 14 ∷ 15 ∷ 16 ∷ [];
  title_dates = record { year = 2024; low = 3; high = 17 } ∷ [];
  title_fold = title_a;
}

abbrev re_upload : SetData
re_upload = record upload {
  normalized_title = some title_b;
  played_date = some 19400;
  title_dates = [];
}

abbrev even : ℕ → ℕ
even m = 1

together : separated (compute_signals even upload re_upload 6) none none ≡ false
unfolding matching
together = refl

compute_signals-attach_example :
    (decide_verdict (compute_signals even upload re_upload 6) 0 none none).verdict ≡ auto_attach
compute_signals-attach_example =
    compute_signals-attach even upload re_upload 0 none none refl
      (refl, (refl, (refl, (refl, (refl, (refl, tt)))))) (omega arith) together

attached :
    (decide_verdict (compute_signals even upload re_upload 6) 0 none none).verdict ≡ auto_attach
unfolding matching
attached = refl

decide_verdict-HasAttachEvidence_example :
    NotSeparated (compute_signals even upload re_upload 6) none none
    × HasAttachEvidence (compute_signals even upload re_upload 6)
decide_verdict-HasAttachEvidence_example =
    decide_verdict-HasAttachEvidence (compute_signals even upload re_upload 6) 0 none none attached

scored : compute_confidence (compute_signals even upload re_upload 6) ≡ 2500
unfolding matching
scored = refl
