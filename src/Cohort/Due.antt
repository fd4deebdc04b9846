-- ===== src/Cohort/Due.antt =====
-- `select_due_cohort_ids` of server/workers/cohort.py: which members of the cohort the nightly
-- release watch checks.
use diggy.Prelude.{
  ℕ, ◌+◌, ◌-◌, ◌*◌, ◌≡◌, refl, ◌∙◌, Bool, true, false, not, ◌&&◌, ◌||◌, Option, none, some, List,
  [], ◌∷◌, map, arith, ltb, ◌==◌, Bool-cases, ◌⊎◌, inl, inr, filter, take, drop, count, length,
  length-take, length-filter, min, All, All-filter_self, All-take, All-imp, ◌≤◌,
}
use diggy.Prelude.Sort.{
  sort_by, sort_by-IsSorted, length-sort_by, All-sort_by, take-before-drop, count-take-drop,
  count-sort_by,
}
use diggy.Cohort.Rows.{ArtistCohort}
use diggy.Cohort.Service.{null_first_le}
use diggy.Cohort.Signals.{day}

abbrev pub t1_cadence_days : ℕ
t1_cadence_days = 1

abbrev pub t2_cadence_days : ℕ
t2_cadence_days = 7

-- never checked, or last checked before the cutoff
abbrev pub elapsed : ℕ → Option ℕ → Bool
elapsed cutoff none = true
elapsed cutoff (some checked) = ltb checked cutoff

-- The WHERE of the query.
unfoldable pub is_due : ℕ → ArtistCohort → Bool
is_due now row =
    not row.excluded
    && (row.tier == 1 && elapsed (now - t1_cadence_days * day) row.last_checked_at
        || row.tier == 2 && elapsed (now - t2_cadence_days * day) row.last_checked_at)

-- Its ORDER BY: tier, then last_checked_at, NULLs first.
unfoldable pub due_order : ArtistCohort → ArtistCohort → Bool
due_order a b =
    ltb a.tier b.tier || a.tier == b.tier && null_first_le a.last_checked_at b.last_checked_at

abbrev pub queue : ℕ → List ArtistCohort → List ArtistCohort
queue now rows = sort_by due_order (filter (is_due now) rows)

unfoldable pub select_due_cohort_ids : ℕ → ℕ → List ArtistCohort → List ℕ
select_due_cohort_ids now budget rows = map (λ row. row.artist_id) (take budget (queue now rows))

due_order_total : (a b : ArtistCohort) → due_order a b ≡ false → due_order b a ≡ true
unfolding due_order
due_order_total a b h = ground arith

due_order_trans :
    (a b c : ArtistCohort) → due_order a b ≡ true → due_order b c ≡ true → due_order a c ≡ true
unfolding due_order
due_order_trans a b c h k = ground arith

-- `drawn` is what a night checks of the rows, and `left` is what it does not.
pub record IsDraw (now budget : ℕ) (rows drawn left : List ArtistCohort) : Type 0 where
  pub size : length drawn ≡ min budget (count (is_due now) rows)
  pub due : All (λ row. is_due now row ≡ true) drawn
  pub watched : All (λ row. (row.excluded ≡ false) × (row.tier ≤ 2)) drawn
  pub split :
      (p : ArtistCohort → Bool)
      → count p drawn + count p left ≡ count (λ row. is_due now row && p row) rows
  pub first : All (λ row. All (λ other. due_order row other ≡ true) left) drawn
  pub daily_first : count (λ row. row.tier == 1) left ≡ 0 ⊎ All (λ row. row.tier ≡ 1) drawn

count-filter :
    (p q : ArtistCohort → Bool) (rows : List ArtistCohort)
    → count p (filter q rows) ≡ count (λ row. q row && p row) rows
count-filter p q [] = refl
count-filter p q (row ∷ rows) = ground (arith, count-filter p q rows)

due_watched :
    (now : ℕ) (row : ArtistCohort) → is_due now row ≡ true → (row.excluded ≡ false) × (row.tier ≤ 2)
unfolding is_due
due_watched now row h = (ground arith, ground arith)

daily :
    (now : ℕ) (row : ArtistCohort) (left : List ArtistCohort)
    → is_due now row ≡ true
    → All (λ other. due_order row other ≡ true) left
    → (count (λ other. other.tier == 1) left ≡ 0) ⊎ (row.tier ≡ 1)
unfolding is_due due_order
daily now row [] h low = inl refl
daily now row (other ∷ left) h (first, low) = elim (daily now row left h low) [
  | inl none_yet ↦ elim (Bool-cases (row.tier == 1)) [
    | inl e ↦ inr (ground arith)
    | inr e ↦ inl (ground (arith, none_yet))
  ]
  | inr e ↦ inr e
]

daily_ranks :
    (now : ℕ) (drawn left : List ArtistCohort)
    → All (λ row. is_due now row ≡ true) drawn
    → All (λ row. All (λ other. due_order row other ≡ true) left) drawn
    → (count (λ other. other.tier == 1) left ≡ 0) ⊎ All (λ row. row.tier ≡ 1) drawn
daily_ranks now [] left due first = inr tt
daily_ranks now (row ∷ drawn) left (d, due) (f, first) = elim (daily now row left d f) [
  | inl e ↦ inl e
  | inr e ↦ elim (daily_ranks now drawn left due first) [ inl k ↦ inl k | inr k ↦ inr (e, k) ]
]

-- A night draws the members that are due, as many as the budget allows: each drawn row is due and
-- not excluded, every due row is drawn or left, no row that is left should have come before one
-- that is drawn, and as long as a due daily member is left no weekly member is drawn.
pub select_due_cohort_ids-IsDraw :
    (now budget : ℕ) (rows : List ArtistCohort)
    → (drawn left : List ArtistCohort) × (select_due_cohort_ids now budget rows
        ≡ map (λ row. row.artist_id) drawn)
      × IsDraw now budget rows drawn left
unfolding select_due_cohort_ids
select_due_cohort_ids-IsDraw now budget rows =
    let found = filter (is_due now) rows in
    let sorted = sort_by-IsSorted due_order due_order_total due_order_trans found in
    let all_due =
      All-sort_by due_order (λ row. is_due now row ≡ true) found
        (All-filter_self (is_due now) rows) in
    let drawn_due = All-take (λ row. is_due now row ≡ true) budget (queue now rows) all_due in
    let before = take-before-drop due_order budget (queue now rows) sorted in
    (
      take budget (queue now rows),
      drop budget (queue now rows),
      refl,
      record {
        size = omega (
          arith,
          length-take budget (queue now rows),
          length-sort_by due_order found,
          length-filter (is_due now) rows,
        );
        due = drawn_due;
        watched =
            All-imp (λ row. is_due now row ≡ true) _ (take budget (queue now rows))
              (due_watched now) drawn_due;
        split = λ p.
            count-take-drop p budget (queue now rows)
            ∙ count-sort_by due_order p found
            ∙ count-filter p (is_due now) rows;
        first = before;
        daily_first =
            daily_ranks now (take budget (queue now rows)) (drop budget (queue now rows)) drawn_due
              before;
      },
    )
