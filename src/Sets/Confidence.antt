-- ===== src/Sets/Confidence.antt =====
-- `compute_confidence` of server/api/services/set_dedup_service.py, in ten-thousandths.
pub mod Bounds
use diggy.Prelude.{ℕ, ◌+◌, ◌*◌, min, Bool, Option, none, some, leb, ◌==◌, if◌then◌else◌}
use diggy.Prelude.Int.{pos_part}
use diggy.Sets.Ratio.{Ratio, Correlation, round4}
use diggy.Sets.Verdict.{MatchSignals}

-- max(0.0, order_corr) if order_corr is not None else 0.0
unfoldable pub order_component : Option Correlation → Ratio
order_component none = record { num = 0; den = 1 }
order_component (some c) = record { num = pos_part c.num; den = c.den }

-- in hundredths
unfoldable pub date_factor : Option ℕ → ℕ
date_factor none = 100
date_factor (some gap) =
    if leb gap 1 then 115 else (if gap == 2 then 100 else (if leb gap 30 then 60 else 30))

-- The base over 100 times the three denominators.
unfoldable pub base_num : MatchSignals → Ratio → ℕ
base_num s order =
    55 * (s.weighted_overlap.num * (s.title_sim.den * order.den))
    + 25 * (s.title_sim.num * (s.weighted_overlap.den * order.den))
    + 10 * (order.num * (s.weighted_overlap.den * s.title_sim.den))
    + (if s.first_track_match
        then 10 * (s.weighted_overlap.den * (s.title_sim.den * order.den))
        else 0)

unfoldable pub compute_confidence : MatchSignals → ℕ
compute_confidence s =
    let order = order_component s.order_corr in
    let whole = s.weighted_overlap.den * (s.title_sim.den * order.den) in
    min 10000 (round4 (base_num s order * date_factor s.date_gap_days) (10000 * whole))
