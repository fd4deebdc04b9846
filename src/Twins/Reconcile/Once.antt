-- ===== src/Twins/Reconcile/Once.antt =====
-- The control never writes a second flag for a pair of sets.
use diggy.Prelude.{
  ℕ, ◌≡◌, refl, ◌∙◌, sym, ap, subst, false, not, ◌&&◌, Option, none, some, List, [], ◌∷◌, ◌++◌, map,
  arith, ◌==◌, any, find?-eq-some, count-zero, min, max, All, All-of, All-both, Bool-cases, inl,
  inr,
}
use mathlib.Core.List.{Memᴰ}
use diggy.Prelude.Distinct.{has}
use diggy.Families.Rows.{
  DjSet, SetFlag, SetFlagStatus, pending, attached, FamilyDb, Env, Result, ok, err, value_error,
  lookup_error, attribute_error, index_error, multiple_results, has_id, get_set,
}
use diggy.Families.Results.{Ensures}
use diggy.Families.Parents.{Parent, attach_pair}
use diggy.Families.Parents.SameFlags.{SameFlags, attach_pair_flags}
use diggy.Families.Flags.{flags_pair}
use diggy.Families.Flags.Once.{FlagsOnce, new_pair-Once}
use diggy.Families.Forest.Shapes.{IsFamilyForest}
use diggy.Twins.Rules.{TwinEnv, Reason}
use diggy.Twins.Choice.{Evaluated, Choice, is_youtube, family, rank, choose}
use diggy.Twins.Choice.Target.{choose-Aims}
use diggy.Twins.Search.{evaluate}
use diggy.Twins.Search.Rows.{IsEvaluated, evaluate-IsEvaluated}
use diggy.Twins.Reconcile.{
  Winner, Reconciled, overruled, youtube_side_objection, settled, is_frozen, plan_twin_for_set,
  twin_flag, written, apply_twin_plan, apply_winner, families_with_decision,
  reconcile_twins_for_set,
}
use diggy.Twins.Reconcile.Planned.{plan_twin_for_set-Planned}
use diggy.Twins.Reconcile.Families.{families_apart, flagged_pair_decided}

overruled-target : (o : Option Reason) (c : Choice) → (overruled o c).target ≡ c.target
overruled-target none c = refl
overruled-target (some reason) c = refl

pub settled-target :
    (env : TwinEnv) (row : DjSet) (c : Choice) (db : FamilyDb)
    → (settled env row c db).target ≡ c.target
unfolding settled
settled-target env row c db =
    elim (Bool-cases (c.attached && not (is_youtube row) && not (rank c.target == 0))) [
      | inl e ↦ rw e (overruled-target (youtube_side_objection env row c.target.row db) c)
      | inr e ↦ rw e refl
    ]

Mem-map : (e : Evaluated) (es : List Evaluated) → Memᴰ e es → Memᴰ e.row (map (λ x. x.row) es)
Mem-map e [] m = elim m [ ]
Mem-map e (x ∷ es) (Memᴰ.head p) = Memᴰ.head (ap (λ y. y.row) p)
Mem-map e (x ∷ es) (Memᴰ.tail m) = Memᴰ.tail (Mem-map e es m)

All-map :
    (env : TwinEnv) (db : FamilyDb) (row : DjSet) (es : List Evaluated)
    → All (IsEvaluated env row db) es
    → All (λ r. get_set r.id db ≡ some r) (map (λ x. x.row) es)
All-map env db row [] h = tt
All-map env db row (e ∷ es) (h, hs) = (h.row_of.found, All-map env db row es hs)

-- A choice that no flag froze is of a pair without a flag.
chosen_unflagged :
    (env : TwinEnv) (row : DjSet) (c : Choice) (db : FamilyDb)
    → IsFamilyForest db
    → get_set row.id db ≡ some row
    → row.is_virtual ≡ false
    → choose row (evaluate env row db) ≡ some c
    → is_frozen row (evaluate env row db) c db ≡ false
    → any (flags_pair (min row.id c.target.row.id) (max row.id c.target.row.id)) db.set_flags
      ≡ false
chosen_unflagged env row c db f found real h frozen =
    let es = evaluate env row db in
    let rows = map (λ (e : Evaluated). e.row) es in
    let r = c.target.row in
    let of_es = evaluate-IsEvaluated env row db f.unique in
    let aims =
      choose-Aims (λ e. Memᴰ e es × IsEvaluated env row db e) row es c
        (All-both (λ e. Memᴰ e es) (IsEvaluated env row db) es
          (All-of (λ e. Memᴰ e es) es (λ e m. m)) of_es)
        h in
    let apart = families_apart env row db c.target f found real aims.target.1 in
    let undecided =
      aims.contested (λ e. has ◌==◌ (family e.row) (families_with_decision row rows db)) frozen in
    elim (Bool-cases (any (flags_pair (min row.id r.id) (max row.id r.id)) db.set_flags)) [
      | inl k ↦
          let decided =
            flagged_pair_decided row rows db r f.unique (found, All-map env db row es of_es)
              (Mem-map c.target es aims.target.0) apart k in
          absurd (ground (arith, decided, undecided))
      | inr k ↦ k
    ]

abbrev IsPairFree : ℕ → ℕ → FamilyDb → Type 0
IsPairFree i w db = any (flags_pair (min i w) (max i w)) db.set_flags ≡ false

plan_unflagged :
    (env : TwinEnv) (i : ℕ) (db : FamilyDb) (w : Winner)
    → IsFamilyForest db
    → (plan_twin_for_set env i db).winner ≡ some w
    → IsPairFree i w.winner_id db
plan_unflagged env i db w f h =
    let (row, e, p, controlled) = plan_twin_for_set-Planned env i db w h in
    let same : row.id ≡ i = ground (arith, find?-eq-some (has_id i) db.sets row e) in
    let target : p.choice.target.row.id ≡ w.winner_id =
      sym (ap (λ t. t.row.id) (settled-target env row p.choice db)) ∙ ap (λ v. v.winner_id) p.won in
    subst (λ j. IsPairFree j w.winner_id db) same
      (subst (λ j. IsPairFree row.id j db) target
        (chosen_unflagged env row p.choice db f (subst (λ j. get_set j db ≡ some row) (sym same) e)
          (ground (arith, controlled)) p.chosen p.free))

abbrev pub IsOnce : Reconciled → Type 0
IsOnce r = FlagsOnce r.db.set_flags

twin_flag-Once :
    (id i w : ℕ) (resolved_at : Option ℕ) (status : SetFlagStatus) (db : FamilyDb)
    (flags : List SetFlag)
    → flags ≡ db.set_flags
    → IsPairFree i w db
    → FlagsOnce db.set_flags
    → FlagsOnce (flags ++ twin_flag id i w resolved_at status ∷ [])
twin_flag-Once id i w resolved_at status db flags same free h =
    new_pair-Once (min i w) (max i w) (twin_flag id i w resolved_at status) flags (omega arith) refl
      refl refl
      (count-zero (flags_pair (min i w) (max i w)) flags
        (subst (λ fs. any (flags_pair (min i w) (max i w)) fs ≡ false) (sym same) free))
      (subst FlagsOnce (sym same) h)

written-Once :
    (now i w : ℕ) (db : FamilyDb) (m : Result Parent)
    → Ensures (SameFlags db) m
    → IsPairFree i w db
    → FlagsOnce db.set_flags
    → Ensures IsOnce (written now i w db m)
written-Once now i w db (ok parent) same free h =
    twin_flag-Once parent.db.next_flag_id i w (some now) attached db parent.db.set_flags same free h
written-Once now i w db (err value_error) same free h = h
written-Once now i w db (err lookup_error) same free h = tt
written-Once now i w db (err attribute_error) same free h = tt
written-Once now i w db (err index_error) same free h = tt
written-Once now i w db (err multiple_results) same free h = tt

apply_winner-Once :
    (env : Env) (now i : ℕ) (winner : Option Winner) (db : FamilyDb)
    → ((w : Winner) → winner ≡ some w → IsPairFree i w.winner_id db)
    → FlagsOnce db.set_flags
    → Ensures IsOnce (apply_winner env now i winner db)
unfolding apply_twin_plan
apply_winner-Once env now i none db free h = h
apply_winner-Once env now i (some w) db free h = elim (Bool-cases w.attaching) [
  | inl e ↦ rw e (
      written-Once now i w.winner_id db (attach_pair env i w.winner_id db)
        (attach_pair_flags env i w.winner_id db) (free w refl) h)
  | inr e ↦ rw e (
      twin_flag-Once db.next_flag_id i w.winner_id none pending db db.set_flags refl (free w refl)
        h)
]

-- In a forest where every flag of a pair names the lesser id first, and no two sets, in either
-- order, and no group has two flags, the control of a set decides no pair that has a flag: the same
-- holds afterwards.
pub reconcile_twins_for_set-FlagsOnce :
    (env : Env) (twin_env : TwinEnv) (now i : ℕ) (db : FamilyDb)
    → IsFamilyForest db
    → FlagsOnce db.set_flags
    → Ensures IsOnce (reconcile_twins_for_set env twin_env now i db)
unfolding reconcile_twins_for_set
reconcile_twins_for_set-FlagsOnce env twin_env now i db f h =
    apply_winner-Once env now i (plan_twin_for_set twin_env i db).winner db
      (λ w e. plan_unflagged twin_env i db w f e) h
