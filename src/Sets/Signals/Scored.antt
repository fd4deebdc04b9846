-- ===== src/Sets/Signals/Scored.antt =====
-- The signals that `compute_signals` computes are scores, so that the bounds on the confidence hold
-- of them.
use native.Mathlib.Nat.{mul-le-mul, mul-pos}
use diggy.Prelude.{
  ℕ, zero, suc, ◌-◌, ◌*◌, ◌≤◌, ◌<◌, ◌≡◌, min, Bool, true, List, [], ◌∷◌, arith, ltb, leb, ◌==◌,
  Bool-cases, inl, inr, length, filter, get_or,
}
use diggy.Prelude.Int.{sub_ℕ, pos_part}
use diggy.Prelude.Distinct.{has, first_seen, common}
use diggy.Sets.Titles.Laws.{token_set_ratio-bounds}
use diggy.Sets.Verdict.{gap_above, flag_confidence_threshold}
use diggy.Sets.Confidence.{order_component, date_factor, compute_confidence}
use diggy.Sets.Confidence.Bounds.{IsScored, compute_confidence-le}
use diggy.Sets.Signals.{
  SetData, share, total_weight, weighted_overlap_of, spearman, order_correlation, compute_signals,
}

share-le :
    (part whole : ℕ)
    → part ≤ whole
    → ((share part whole).num ≤ (share part whole).den) × (1 ≤ (share part whole).den)
share-le part zero h = (omega arith, omega arith)
share-le part (suc whole) h = (h, omega arith)

total_weight-filter :
    (weight : ℕ → ℕ) (p : ℕ → Bool) (ms : List ℕ)
    → total_weight weight (filter p ms) ≤ total_weight weight ms
total_weight-filter weight p [] = omega arith
total_weight-filter weight p (m ∷ ms) = ground (arith, total_weight-filter weight p ms)

weighted_overlap_of-le :
    (weight : ℕ → ℕ) (a b : List ℕ)
    → let r = weighted_overlap_of weight a b in (r.num ≤ r.den) × (1 ≤ r.den)
unfolding weighted_overlap_of
weighted_overlap_of-le weight a b = elim (Bool-cases (leb (length a) (length b))) [
  | inl e ↦ rw e (
      share-le _ _
        (total_weight-filter weight (λ m. has ◌==◌ m (first_seen ◌==◌ b)) (first_seen ◌==◌ a)))
  | inr e ↦ rw e (
      share-le _ _
        (total_weight-filter weight (λ m. has ◌==◌ m (first_seen ◌==◌ a)) (first_seen ◌==◌ b)))
]

pos_part_sub : (m k : ℕ) → pos_part (sub_ℕ m k) ≤ m
pos_part_sub m k = ground arith

spearman-le :
    (n d : ℕ)
    → 3 ≤ n
    → (pos_part (spearman n d).num ≤ (spearman n d).den) × (1 ≤ (spearman n d).den)
spearman-le n d h =
    let square = mul-le-mul {n₁ = 3} {m₁ = 3} {n₂ = n} {m₂ = n} h h in
    (pos_part_sub (n * (n * n - 1)) (6 * d), mul-pos (omega arith) (omega (arith, square)))

order_correlation-le :
    (a b : List ℕ)
    → let r = order_component (order_correlation a b) in (r.num ≤ r.den) × (1 ≤ r.den)
unfolding order_correlation order_component
order_correlation-le a b =
    let n = length (common ◌==◌ (first_seen ◌==◌ a) b) in
    elim (Bool-cases (ltb n 3)) [
      | inl e ↦ rw e (omega arith, omega arith)
      | inr e ↦ rw e (spearman-le n _ (ground arith))
    ]

compute_signals-IsScored :
    (weight : ℕ → ℕ) (a b : SetData) (shared : ℕ) → IsScored (compute_signals weight a b shared)
unfolding compute_signals
compute_signals-IsScored weight a b shared =
    let w = weighted_overlap_of-le weight a.identified_mtids b.identified_mtids in
    let t = token_set_ratio-bounds (get_or a.normalized_title []) (get_or b.normalized_title []) in
    let o = order_correlation-le a.identified_mtids b.identified_mtids in
    record {
      weighted = w.0;
      weighted_positive = w.1;
      title = t.1;
      title_positive = t.2;
      order = o.0;
      order_positive = o.1;
    }

-- Whatever the two sets are, their confidence is bounded by what their dates allow, and two sets
-- that were played, or uploaded, more than 30 days apart are not flagged by it.
pub compute_signals-confidence :
    (weight : ℕ → ℕ) (a b : SetData) (shared : ℕ)
    → let s = compute_signals weight a b shared in
      (compute_confidence s ≤ min 10000 (100 * date_factor s.date_gap_days))
      × (gap_above 30 s.date_gap_days ≡ true → compute_confidence s < flag_confidence_threshold)
compute_signals-confidence weight a b shared =
    compute_confidence-le (compute_signals weight a b shared)
      (compute_signals-IsScored weight a b shared)
