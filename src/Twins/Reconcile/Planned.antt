-- ===== src/Twins/Reconcile/Planned.antt =====
-- Where a plan has a winner, it comes from a choice that no flag froze.
use diggy.Prelude.{
  ℕ, ◌≡◌, refl, ap, subst, Bool, true, false, Option, none, some, arith, if◌then◌else◌, get_or,
  Bool-cases, Option-cases, inl, inr,
}
use diggy.Families.Rows.{DjSet, FamilyDb, get_set}
use diggy.Twins.Rules.{TwinEnv}
use diggy.Twins.Choice.{Choice, choose}
use diggy.Twins.Search.{evaluate}
use diggy.Twins.Reconcile.{
  Winner, TwinPlan, settled, winner_of, is_frozen, planned, is_controlled, no_plan, plan_row,
  plan_found, plan_twin_for_set,
}

pub record Planned (env : TwinEnv) (row : DjSet) (db : FamilyDb) (w : Winner) : Type 0 where
  pub choice : Choice
  pub chosen : choose row (evaluate env row db) ≡ some choice
  pub free : is_frozen row (evaluate env row db) choice db ≡ false
  pub won : winner_of (settled env row choice db) ≡ w

abbrev HasWinner : Winner → TwinPlan → Type 0
HasWinner w p = p.winner ≡ some w

planned-Planned :
    (env : TwinEnv) (row : DjSet) (db : FamilyDb) (w : Winner) (o : Option Choice)
    → choose row (evaluate env row db) ≡ o
    → HasWinner w (planned env row (evaluate env row db) o db)
    → Planned env row db w
planned-Planned env row db w none e h = ground arith
planned-Planned env row db w (some c) e h =
    let winner = λ (b : Bool). if b then none else some (winner_of (settled env row c db)) in
    elim (Bool-cases (is_frozen row (evaluate env row db) c db)) [
      | inl z ↦ absurd (ground (arith, subst (λ b. winner b ≡ some w) z h))
      | inr z ↦ record {
        choice = c;
        chosen = e;
        free = z;
        won = ap (λ o. get_or o w) (subst (λ b. winner b ≡ some w) z h);
      }
    ]

plan_row-Planned :
    (env : TwinEnv) (row : DjSet) (db : FamilyDb) (w : Winner)
    → HasWinner w (plan_row env row db)
    → Planned env row db w × (is_controlled row ≡ true)
plan_row-Planned env row db w h =
    let es = evaluate env row db in
    let plan = λ (b : Bool). if b then planned env row es (choose row es) db else no_plan row.id in
    elim (Bool-cases (is_controlled row)) [
      | inl e ↦ (
        planned-Planned env row db w (choose row es) refl (subst (λ b. HasWinner w (plan b)) e h),
        e,
      )
      | inr e ↦ absurd (ground (arith, subst (λ b. HasWinner w (plan b)) e h))
    ]

-- The winner of a plan, traced back to the row of the set.
pub plan_twin_for_set-Planned :
    (env : TwinEnv) (i : ℕ) (db : FamilyDb) (w : Winner)
    → (plan_twin_for_set env i db).winner ≡ some w
    → (row : DjSet) × (get_set i db ≡ some row) × Planned env row db w × (is_controlled row ≡ true)
unfolding plan_twin_for_set
plan_twin_for_set-Planned env i db w h = elim (Option-cases (get_set i db)) [
  | inl e ↦ absurd (ground (arith, subst (λ o. HasWinner w (plan_found env i o db)) e h))
  | inr (row, e) ↦
      let k =
        plan_row-Planned env row db w (subst (λ o. HasWinner w (plan_found env i o db)) e h) in
      (row, e, k.0, k.1)
]
