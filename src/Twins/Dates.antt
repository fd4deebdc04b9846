-- ===== src/Twins/Dates.antt =====
-- `date(year, month, day)` as a number of days, and the dates of a signature
-- (`_signature_dates` of server/api/services/set_twin_rules.py).
use diggy.Prelude.{
  ℕ, zero, suc, ◌+◌, ◌-◌, ◌*◌, ◌/◌, ◌%◌, Bool, not, ◌&&◌, ◌||◌, Option, none, some, List, [], ◌∷◌,
  ◌++◌, leb, ◌==◌, if◌then◌else◌,
}
use diggy.Sets.Signals.{DateSignature}

abbrev is_leap : ℕ → Bool
is_leap year = year % 4 == 0 && (not (year % 100 == 0) || year % 400 == 0)

abbrev month_lengths : Bool → List ℕ
month_lengths leap =
    31 ∷ (if leap then 29 else 28) ∷ 31 ∷ 30 ∷ 31 ∷ 30 ∷ 31 ∷ 31 ∷ 30 ∷ 31 ∷ 30 ∷ 31 ∷ []

-- the length of month `m`, and the days before it; months count from 1
abbrev month_length : ℕ → List ℕ → ℕ
month_length m [] = 0
month_length zero (d ∷ ds) = 0
month_length (suc zero) (d ∷ ds) = d
month_length (suc (suc m)) (d ∷ ds) = month_length (suc m) ds

abbrev days_before : ℕ → List ℕ → ℕ
days_before m [] = 0
days_before zero (d ∷ ds) = 0
days_before (suc zero) (d ∷ ds) = 0
days_before (suc (suc m)) (d ∷ ds) = d + days_before (suc m) ds

-- none for ValueError
unfoldable pub date_of : ℕ → ℕ → ℕ → Option ℕ
date_of year month day =
    let lengths = month_lengths (is_leap year) in
    let y = year - 1 in
    if leb 1 year && leb year 9999 && leb 1 day && leb day (month_length month lengths)
    then some (365 * y + y / 4 - y / 100 + y / 400 + days_before month lengths + day)
    else none

abbrev one_date : Option ℕ → List ℕ
one_date none = []
one_date (some d) = d ∷ []

-- day and month either way round
unfoldable pub signature_dates : DateSignature → List ℕ
signature_dates s = one_date (date_of s.year s.high s.low) ++ one_date (date_of s.year s.low s.high)
