-- ===== src/Sets/Verdict/Evidence.antt =====
-- What a verdict rests on.
use diggy.Prelude.{ℕ, ◌≡◌, ◌≤◌, ◌⊎◌, inl, inr, true, false, Option, arith, Bool-cases}
use diggy.Sets.Ratio.{Ratio, at_least}
use diggy.Sets.Verdict.{
  MatchSignals, auto_attach, gap_above, distinct_parts, order_not_refuted, separated,
  identical_tracklist, same_title_same_day, same_episode, same_title_same_opener, full_inclusion,
  near_duplicate_title, high_overlap, decide_verdict,
}

-- Nothing says that the two sets are distinct: no two dates in the titles differ, no two reliable
-- event dates are more than a day apart, and the part numbers do not differ.
pub record NotSeparated (s : MatchSignals) (a b : Option ℕ) : Type 0 where
  pub titles : s.title_dates_diverge ≡ false
  pub dates : s.both_event_reliable ≡ true → gap_above 1 s.date_gap_days ≡ false
  pub parts : distinct_parts a b ≡ false

-- The content of the tracklists, half of it shared at the least, or a reliable date that is the
-- same under nearly the same title.
abbrev pub HasAttachEvidence : MatchSignals → Type 0
HasAttachEvidence s =
    ((s.same_reliable_date ≡ true) × (9000 ≤ s.title_fold_ratio))
    ⊎ ((at_least s.overlap 50 100 ≡ true)
        × ((4 ≤ s.shared_count) × (order_not_refuted s.order_corr ≡ true)
            ⊎ (at_least s.overlap 80 100 ≡ true) × (gap_above 2 s.date_gap_days ≡ false)))

separated-NotSeparated :
    (s : MatchSignals) (a b : Option ℕ) → separated s a b ≡ false → NotSeparated s a b
unfolding separated
separated-NotSeparated s a b h = record {
  titles = ground arith;
  dates = λ k. ground arith;
  parts = ground arith;
}

half_of :
    (r : Ratio)
    → (at_least r 95 100 ≡ true → at_least r 50 100 ≡ true)
      × (at_least r 80 100 ≡ true → at_least r 50 100 ≡ true)
      × (at_least r 70 100 ≡ true → at_least r 50 100 ≡ true)
      × (at_least r 1 1 ≡ true → at_least r 50 100 ≡ true)
unfolding at_least
half_of r = (λ h. ground arith, λ h. ground arith, λ h. ground arith, λ h. ground arith)

identical-HasAttachEvidence :
    (s : MatchSignals) → identical_tracklist s ≡ true → HasAttachEvidence s
unfolding identical_tracklist
identical-HasAttachEvidence s h =
    inr ((half_of s.overlap).0 (ground arith), inl (ground arith, ground arith))

same_day-HasAttachEvidence : (s : MatchSignals) → same_title_same_day s ≡ true → HasAttachEvidence s
unfolding same_title_same_day
same_day-HasAttachEvidence s h =
    let (_, _, k, _) = half_of s.overlap in inr (k (ground arith), inl (ground arith, ground arith))

episode-HasAttachEvidence : (s : MatchSignals) → same_episode s ≡ true → HasAttachEvidence s
unfolding same_episode
episode-HasAttachEvidence s h = inr (ground arith, inl (ground arith, ground arith))

opener-HasAttachEvidence :
    (s : MatchSignals) → same_title_same_opener s ≡ true → HasAttachEvidence s
unfolding same_title_same_opener
opener-HasAttachEvidence s h =
    let (_, k, _, _) = half_of s.overlap in inr (k (ground arith), inl (ground arith, ground arith))

inclusion-HasAttachEvidence : (s : MatchSignals) → full_inclusion s ≡ true → HasAttachEvidence s
unfolding full_inclusion
inclusion-HasAttachEvidence s h =
    let (_, _, _, k) = half_of s.overlap in inr (k (ground arith), inl (ground arith, ground arith))

near_title-HasAttachEvidence :
    (s : MatchSignals) → near_duplicate_title s ≡ true → HasAttachEvidence s
unfolding near_duplicate_title
near_title-HasAttachEvidence s h = inl (ground arith, ground arith)

overlap-HasAttachEvidence :
    (s : MatchSignals)
    → high_overlap s ≡ true
    → gap_above 2 s.date_gap_days ≡ false
    → HasAttachEvidence s
unfolding high_overlap
overlap-HasAttachEvidence s h k =
    let (_, m, _, _) = half_of s.overlap in inr (m (ground arith), inr (ground arith, k))

-- Two sets are attached without a human only if nothing separates them, and half of the shorter
-- tracklist is shared in an order that does not differ, or 80 percent of it without two dates more
-- than two days apart, or a reliable date is the same and the titles are 90 percent alike.
pub decide_verdict-HasAttachEvidence :
    (s : MatchSignals) (confidence : ℕ) (a b : Option ℕ)
    → (decide_verdict s confidence a b).verdict ≡ auto_attach
    → NotSeparated s a b × HasAttachEvidence s
unfolding decide_verdict
decide_verdict-HasAttachEvidence s confidence a b h = (
  separated-NotSeparated s a b (ground arith),
  elim (Bool-cases (identical_tracklist s)) [
    | inl e ↦ identical-HasAttachEvidence s e
    | inr e1 ↦ elim (Bool-cases (same_title_same_day s)) [
      | inl e ↦ same_day-HasAttachEvidence s e
      | inr e2 ↦ elim (Bool-cases (same_episode s)) [
        | inl e ↦ episode-HasAttachEvidence s e
        | inr e3 ↦ elim (Bool-cases (same_title_same_opener s)) [
          | inl e ↦ opener-HasAttachEvidence s e
          | inr e4 ↦ elim (Bool-cases (full_inclusion s)) [
            | inl e ↦ inclusion-HasAttachEvidence s e
            | inr e5 ↦ elim (Bool-cases (near_duplicate_title s)) [
              | inl e ↦ near_title-HasAttachEvidence s e
              | inr e6 ↦ overlap-HasAttachEvidence s (ground arith) (ground arith)
            ]
          ]
        ]
      ]
    ]
  ],
)
