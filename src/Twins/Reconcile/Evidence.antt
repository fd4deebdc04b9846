-- ===== src/Twins/Reconcile/Evidence.antt =====
-- The control attaches a set to nothing but a row of the database that the rules attach it to.
use diggy.Prelude.{
  ℕ, ◌≡◌, ◌∙◌, ap, subst, true, false, not, ◌&&◌, Option, none, some, arith, ◌==◌, All-at,
  Bool-cases, inl, inr,
}
use diggy.Families.Rows.{DjSet, FamilyDb, get_set}
use diggy.Families.Forest.Shapes.{IsFamilyForest}
use diggy.Twins.Rules.{TwinEnv, Reason}
use diggy.Twins.Rules.Decision.{decide_twin}
use diggy.Twins.Rules.Decision.Evidence.{is_attach, HasTwinEvidence, decide_twin-HasTwinEvidence}
use diggy.Twins.Choice.{Choice, is_youtube, to_input, rank, choose}
use diggy.Twins.Choice.OneFamily.{choose-Settled}
use diggy.Twins.Search.{decide_rows, evaluate}
use diggy.Twins.Search.Rows.{IsEvaluated, evaluate-IsEvaluated}
use diggy.Twins.Reconcile.{Winner, overruled, settled, winner_of, plan_twin_for_set}
use diggy.Twins.Reconcile.Planned.{plan_twin_for_set-Planned}
use diggy.Twins.Reconcile.Once.{settled-target}

-- The rules decide to attach the two rows, the YouTube set on the left; there is the evidence of
-- the same video, or of date or channel past all their guards, and the other set is reliable.
pub data AreTwins (env : TwinEnv) (row other : DjSet) : Type 0 where
  from_youtube :
      is_youtube row ≡ true
      → is_attach (decide_twin env (to_input row) (to_input other)).verdict ≡ true
      → other.unreliable ≡ false
      → HasTwinEvidence env (to_input row) (to_input other)
      → AreTwins env row other
  to_youtube :
      is_youtube row ≡ false
      → is_attach (decide_twin env (to_input other) (to_input row)).verdict ≡ true
      → row.unreliable ≡ false
      → HasTwinEvidence env (to_input other) (to_input row)
      → AreTwins env row other

decide_rows-AreTwins :
    (env : TwinEnv) (row other : DjSet)
    → is_attach (decide_rows env row other).verdict ≡ true
    → AreTwins env row other
unfolding decide_rows to_input
decide_rows-AreTwins env row other h = elim (Bool-cases (is_youtube row)) [
  | inl y ↦
      let a : is_attach (decide_twin env (to_input row) (to_input other)).verdict ≡ true =
        ground (arith, y, h) in
      let k = decide_twin-HasTwinEvidence env (to_input row) (to_input other) a in
      from_youtube y a k.0 k.1
  | inr n ↦
      let a : is_attach (decide_twin env (to_input other) (to_input row)).verdict ≡ true =
        ground (arith, n, h) in
      let k = decide_twin-HasTwinEvidence env (to_input other) (to_input row) a in
      to_youtube n a k.0 k.1
]

overruled_attached :
    (o : Option Reason) (c : Choice) → (overruled o c).attached ≡ true → c.attached ≡ true
overruled_attached none c h = h
overruled_attached (some reason) c h = ground arith

settled_attached :
    (env : TwinEnv) (row : DjSet) (c : Choice) (db : FamilyDb)
    → (settled env row c db).attached ≡ true
    → c.attached ≡ true
unfolding settled
settled_attached env row c db h =
    elim (Bool-cases (c.attached && not (is_youtube row) && not (rank c.target == 0))) [
      | inl e ↦ ground (arith, e)
      | inr e ↦ ground (arith, e, h)
    ]

-- the row that a winner names
pub record HasTwin (env : TwinEnv) (row : DjSet) (db : FamilyDb) (w : Winner) : Type 0 where
  pub twin : DjSet
  pub found : get_set w.winner_id db ≡ some twin
  pub twins : AreTwins env row twin

chosen-HasTwin :
    (env : TwinEnv) (row : DjSet) (c : Choice) (db : FamilyDb)
    → IsFamilyForest db
    → choose row (evaluate env row db) ≡ some c
    → (settled env row c db).attached ≡ true
    → HasTwin env row db (winner_of (settled env row c db))
chosen-HasTwin env row c db f h a =
    let es = evaluate env row db in
    let k = (choose-Settled row es c h (settled_attached env row c db a)).0 in
    let e =
      All-at (IsEvaluated env row db) es (evaluate-IsEvaluated env row db f.unique) c.target k.0 in
    let same = ap (λ t. t.row.id) (settled-target env row c db) in
    record {
      twin = c.target.row;
      found = ap (λ i. get_set i db) same ∙ e.row_of.found;
      twins =
          decide_rows-AreTwins env row c.target.row
            (subst (λ d. is_attach d.verdict ≡ true) e.decided (ground (arith, k.1)));
    }

-- In a forest, a set that the control plans to attach has a twin among the rows of the database:
-- the rules decide to attach the two, the one that is not the YouTube set is reliable, and there is
-- the same video, or nothing that separates them and evidence by date or by channel.
pub plan_twin_for_set-HasTwin :
    (env : TwinEnv) (i : ℕ) (db : FamilyDb) (w : Winner)
    → IsFamilyForest db
    → (plan_twin_for_set env i db).winner ≡ some w
    → w.attaching ≡ true
    → (row : DjSet) × (get_set i db ≡ some row) × HasTwin env row db w
plan_twin_for_set-HasTwin env i db w f h a =
    let (row, e, p, controlled) = plan_twin_for_set-Planned env i db w h in
    (
      row,
      e,
      subst (HasTwin env row db) p.won
          (chosen-HasTwin env row p.choice db f p.chosen (ap (λ v. v.attaching) p.won ∙ a)),
    )
