-- ===== src/Sets/Ratio.antt =====
-- The scores of the matching. A Python float stands here for the fraction that the code divides
-- out, kept exact, and a score that the code rounds to 4 digits for a number of ten-thousandths.
use diggy.Prelude.{ℕ, suc, ◌+◌, ◌*◌, ◌/◌, ◌%◌, Bool, ltb, leb, if◌then◌else◌}
use diggy.Prelude.Int.{ℤ, pos_part, neg_part}

-- num / den; den is positive
pub record Ratio : Type 0 where
  pub num : ℕ
  pub den : ℕ

-- r ≥ a / b
unfoldable pub at_least : Ratio → ℕ → ℕ → Bool
at_least r a b = leb (a * r.den) (b * r.num)

-- a correlation, which may be negative
pub record Correlation : Type 0 where
  pub num : ℤ
  pub den : ℕ

unfoldable pub corr_at_least : Correlation → ℕ → ℕ → Bool
corr_at_least c a b = leb (a * c.den + b * neg_part c.num) (b * pos_part c.num)

-- round(n / d, 4) in ten-thousandths, ties to even
unfoldable pub round4 : ℕ → ℕ → ℕ
round4 n d =
    let q = n * 10000 / d in
    let r = n * 10000 % d in
    if ltb (2 * r) d then q else (if ltb d (2 * r) then suc q else q + q % 2)
