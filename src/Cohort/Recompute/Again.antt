-- ===== src/Cohort/Recompute/Again.antt =====
-- A recompute of what a recompute has left.
use diggy.Prelude.{
  ℕ, ◌≡◌, refl, sym, ap, ◌∙◌, Option, none, some, List, arith, Bool-cases, inl, inr,
}
use diggy.Cohort.Rows.{SignalTables, Signals, ArtistCohort}
use diggy.Cohort.Tier.{compute_tier}
use diggy.Cohort.Signals.{signals_of}
use diggy.Cohort.Recompute.{promote, demote, has_override, recompute_cohort}
use diggy.Cohort.Recompute.Upsert.{row_of, HasOneRowEach}
use diggy.Cohort.Recompute.Spec.{next_row, next_row_for, recompute_cohort-next_row}

demote_again :
    (s : Signals) (now : ℕ) (row : ArtistCohort)
    → demote s now (demote s now row) ≡ demote s now row
unfolding demote
demote_again s now row =
    let k : (demote s now (demote s now row)).tier ≡ (demote s now row).tier = ground arith in
    ap
      (λ n. record row {
        computed_tier = none;
        signals = some s;
        last_recomputed_at = some now;
        tier = n;
      })
      k

next_row_for_again :
    (s : Signals) (now aid : ℕ) (ct : Option ℕ) (o : Option ArtistCohort)
    → next_row_for s now aid ct (next_row_for s now aid ct o) ≡ next_row_for s now aid ct o
unfolding promote demote
next_row_for_again s now aid (some ct) o = refl
next_row_for_again s now aid none none = refl
next_row_for_again s now aid none (some row) = elim (Bool-cases (has_override row)) [
  | inl e ↦ rw (e, e) (ap some (demote_again s now row))
  | inr e ↦ rw e refl
]

-- A second recompute at the same instant, over the same tables, changes the row of no artist.
pub recompute_cohort_idempotent :
    (t : SignalTables) (now : ℕ) (rows : List ArtistCohort) (aid : ℕ)
    → HasOneRowEach rows
    → let once = (recompute_cohort t now rows).rows in
      row_of aid (recompute_cohort t now once).rows ≡ row_of aid once
unfolding next_row
recompute_cohort_idempotent t now rows aid u =
    let s = signals_of t now aid in
    let (first, one) = recompute_cohort-next_row t now rows aid u in
    let once = (recompute_cohort t now rows).rows in
    (recompute_cohort-next_row t now once aid one).0
    ∙ ap (λ o. next_row_for s now aid (compute_tier s) o) first
    ∙ next_row_for_again s now aid (compute_tier s) (row_of aid rows)
    ∙ sym first
