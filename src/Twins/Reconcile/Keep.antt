-- ===== src/Twins/Reconcile/Keep.antt =====
-- The control of a set keeps the real sets.
use diggy.Prelude.{ℕ, suc, none, some, Option, Bool-cases, inl, inr}
use diggy.Families.Rows.{
  FamilyDb, Env, Result, ok, err, lookup_error, value_error, attribute_error, index_error,
  multiple_results,
}
use diggy.Families.Parents.{Parent, attach_pair}
use diggy.Families.Parents.Real.{KeepsReal, KeepsReal-refl, Keeps}
use diggy.Families.Parents.Safe.{attach_pair-KeepsReal}
use diggy.Families.Flags.Keep.{flags-KeepsReal}
use diggy.Twins.Rules.{TwinEnv}
use diggy.Twins.Reconcile.{
  Winner, Reconciled, written, apply_twin_plan, apply_winner, plan_twin_for_set, kept,
  reconcile_twins_for_set, reconcile_twins_best_effort,
}

written-Keeps :
    (now i w : ℕ) (db : FamilyDb) (m : Result Parent)
    → Keeps (λ r. r.db) db m
    → Keeps (λ r. r.db) db (written now i w db m)
written-Keeps now i w db (ok parent) h =
    flags-KeepsReal db parent.db _ (suc parent.db.next_flag_id) h
written-Keeps now i w db (err value_error) h = KeepsReal-refl db
written-Keeps now i w db (err lookup_error) h = tt
written-Keeps now i w db (err attribute_error) h = tt
written-Keeps now i w db (err index_error) h = tt
written-Keeps now i w db (err multiple_results) h = tt

apply_winner-Keeps :
    (env : Env) (now i : ℕ) (winner : Option Winner) (db : FamilyDb)
    → Keeps (λ r. r.db) db (apply_winner env now i winner db)
unfolding apply_twin_plan
apply_winner-Keeps env now i none db = KeepsReal-refl db
apply_winner-Keeps env now i (some w) db = elim (Bool-cases w.attaching) [
  | inl e ↦ rw e (
      written-Keeps now i w.winner_id db (attach_pair env i w.winner_id db)
        (attach_pair-KeepsReal env i w.winner_id db))
  | inr e ↦ rw e (flags-KeepsReal db db _ (suc db.next_flag_id) (KeepsReal-refl db))
]

kept-KeepsReal :
    (db : FamilyDb) (m : Result Reconciled) → Keeps (λ r. r.db) db m → KeepsReal db (kept db m)
kept-KeepsReal db (ok r) h = h
kept-KeepsReal db (err e) h = KeepsReal-refl db

-- However the control of a set ends, with an attached twin, a flag, nothing or an error that is
-- rolled back, every real set keeps its row, but for the parent, its tracks and its artists.
pub reconcile_twins_best_effort-KeepsReal :
    (env : Env) (twin_env : TwinEnv) (now i : ℕ) (db : FamilyDb)
    → KeepsReal db (reconcile_twins_best_effort env twin_env now i db)
unfolding reconcile_twins_best_effort reconcile_twins_for_set
reconcile_twins_best_effort-KeepsReal env twin_env now i db =
    kept-KeepsReal db (apply_winner env now i (plan_twin_for_set twin_env i db).winner db)
      (apply_winner-Keeps env now i (plan_twin_for_set twin_env i db).winner db)
