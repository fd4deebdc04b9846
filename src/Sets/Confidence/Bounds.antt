-- ===== src/Sets/Confidence/Bounds.antt =====
-- What the dates of two sets allow the confidence to be.
use native.Mathlib.Nat.{mul-le-mul_right, mul-pos, mod-add-div', mod-lt}
use diggy.Prelude.{
  ℕ, suc, ◌+◌, ◌*◌, ◌/◌, ◌%◌, ◌≤◌, ◌<◌, ◌≡◌, min, true, Option, none, some, arith, ltb, ◌==◌,
  Bool-cases, ◌⊎◌, inl, inr,
}
use diggy.Sets.Ratio.{round4}
use diggy.Sets.Verdict.{MatchSignals, gap_above, flag_confidence_threshold}
use diggy.Sets.Confidence.{order_component, date_factor, base_num, compute_confidence}

-- The scores lie between 0 and 1, and the correlation is no more than 1.
pub record IsScored (s : MatchSignals) : Type 0 where
  pub weighted : s.weighted_overlap.num ≤ s.weighted_overlap.den
  pub weighted_positive : 1 ≤ s.weighted_overlap.den
  pub title : s.title_sim.num ≤ s.title_sim.den
  pub title_positive : 1 ≤ s.title_sim.den
  pub order : (order_component s.order_corr).num ≤ (order_component s.order_corr).den
  pub order_positive : 1 ≤ (order_component s.order_corr).den

quotient_below : (q r d k : ℕ) → q * d + r ≤ k * d → r < d → (q < k) ⊎ ((q ≡ k) × (r ≡ 0))
quotient_below q r d k h small = elim (Bool-cases (ltb q k)) [
  | inl e ↦ inl (ground arith)
  | inr e ↦
      let above = mul-le-mul_right {m = k} {n = q} d (ground arith) in
      elim (Bool-cases (q == k)) [
        | inl same ↦ let p : q ≡ k = ground arith in inr (p, omega (arith, above, h))
        | inr other ↦
            let more = mul-le-mul_right {m = suc k} {n = q} d (ground arith) in
            absurd (omega (arith, more, h))
      ]
]

-- A rounded quotient that is at most k before rounding is so after it.
pub round4-le : (n d k : ℕ) → 1 ≤ d → n * 10000 ≤ k * d → round4 n d ≤ k
unfolding round4
round4-le n d k h low =
    let q = n * 10000 / d in
    let r = n * 10000 % d in
    let whole : q * d + r ≡ n * 10000 = omega (arith, mod-add-div' (n * 10000) d) in
    let small : r < d = mod-lt (n * 10000) h in
    elim (quotient_below q r d k (omega (arith, whole, low)) small) [
      | inl e ↦ ground (arith, e)
      | inr (e, z) ↦ ground (arith, e, z, h)
    ]

product_le : (w w' t o : ℕ) → w ≤ w' → w * (t * o) ≤ w' * (t * o)
product_le w w' t o h = mul-le-mul_right (t * o) h

base-le :
    (s : MatchSignals)
    → IsScored s
    → base_num s (order_component s.order_corr)
      ≤ 100 * (s.weighted_overlap.den * (s.title_sim.den * (order_component s.order_corr).den))
unfolding base_num
base-le s h =
    let o = order_component s.order_corr in
    let x = mul-le-mul_right (s.title_sim.den * o.den) h.weighted in
    let y = mul-le-mul_right (s.weighted_overlap.den * o.den) h.title in
    let z = mul-le-mul_right (s.weighted_overlap.den * s.title_sim.den) h.order in
    elim (Bool-cases s.first_track_match) [
      | inl e ↦ rw e (omega (arith, x, y, z))
      | inr e ↦ rw e (omega (arith, x, y, z))
    ]

date_factor_distant : (gap : Option ℕ) → gap_above 30 gap ≡ true → date_factor gap ≡ 30
unfolding date_factor
date_factor_distant none h = ground arith
date_factor_distant (some gap) h = ground arith

-- The dates bound the confidence: by 0.3 if the sets are more than 30 days apart, by 0.6 if they
-- are 3 to 30 days apart, and by 1 otherwise. So two sets more than 30 days apart are never flagged
-- by their confidence, whatever they share.
pub compute_confidence-le :
    (s : MatchSignals)
    → IsScored s
    → (compute_confidence s ≤ min 10000 (100 * date_factor s.date_gap_days))
      × (gap_above 30 s.date_gap_days ≡ true → compute_confidence s < flag_confidence_threshold)
unfolding compute_confidence
compute_confidence-le s h =
    let o = order_component s.order_corr in
    let whole = s.weighted_overlap.den * (s.title_sim.den * o.den) in
    let f = date_factor s.date_gap_days in
    let positive : 1 ≤ whole =
      mul-pos h.weighted_positive (mul-pos h.title_positive h.order_positive) in
    let scaled : base_num s o * f ≤ 100 * whole * f = mul-le-mul_right f (base-le s h) in
    let rounded =
      round4-le (base_num s o * f) (10000 * whole) (100 * f) (omega (arith, positive))
        (omega (arith, scaled)) in
    let low : compute_confidence s ≤ 100 * f = omega (arith, rounded) in
    (
      omega (arith, low, rounded),
      λ distant. let e = date_factor_distant s.date_gap_days distant in omega (arith, low, e),
    )
