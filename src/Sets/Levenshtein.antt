-- ===== src/Sets/Levenshtein.antt =====
-- `_levenshtein_ratio` of server/api/services/set_dedup_service.py, row by row as the code fills
-- its table.
pub mod Distance
pub mod Bounds
use diggy.Prelude.{ℕ, zero, suc, ◌+◌, ◌-◌, min, max, List, [], ◌∷◌, ◌==◌, if◌then◌else◌, length}
use diggy.Prelude.Text.{Text}
use diggy.Sets.Ratio.{Ratio}

-- list(range(i, i + n + 1))
abbrev pub range_from : ℕ → ℕ → List ℕ
range_from i zero = i ∷ []
range_from i (suc n) = i ∷ range_from (suc i) n

abbrev pub cost : ℕ → ℕ → ℕ
cost c d = if c == d then 0 else 1

-- The inner loop, from the cell that it filled last, `left`: `prev` holds the cells of the previous
-- row from the one above `left` on.
unfoldable pub fill_row : ℕ → Text → List ℕ → ℕ → List ℕ
fill_row c (d ∷ b) (diagonal ∷ above ∷ prev) left =
    let cell = min (min (above + 1) (left + 1)) (diagonal + cost c d) in
    left ∷ fill_row c b (above ∷ prev) cell
fill_row c _ _ left = left ∷ []

-- The outer loop; `i` is the number of the row above.
unfoldable pub rows_from : Text → Text → ℕ → List ℕ → List ℕ
rows_from [] b i prev = prev
rows_from (c ∷ a) b i prev = rows_from a b (suc i) (fill_row c b prev (suc i))

abbrev pub last_or : ℕ → List ℕ → ℕ
last_or d [] = d
last_or d (x ∷ xs) = last_or x xs

-- prev[n] after the loops
unfoldable pub levenshtein : Text → Text → ℕ
levenshtein a b = last_or 0 (rows_from a b 0 (range_from 0 (length b)))

unfoldable pub levenshtein_ratio : Text → Text → Ratio
levenshtein_ratio [] [] = record { num = 1; den = 1 }
levenshtein_ratio [] (d ∷ b) = record { num = 0; den = 1 }
levenshtein_ratio (c ∷ a) [] = record { num = 0; den = 1 }
levenshtein_ratio (c ∷ a) (d ∷ b) =
    let longest = max (length (c ∷ a)) (length (d ∷ b)) in
    record { num = longest - levenshtein (c ∷ a) (d ∷ b); den = longest }
