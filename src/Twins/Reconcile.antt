-- ===== src/Twins/Reconcile.antt =====
-- The plan for a set and what is written of it (server/api/services/set_twin_service.py).
pub mod Planned
pub mod Keep
pub mod Families
pub mod Once
pub mod Evidence
use diggy.Prelude.{
  ℕ, suc, ◌+◌, min, max, Bool, true, false, not, ◌&&◌, ◌||◌, Option, none, some, List, [], ◌∷◌,
  ◌++◌, map, ◌==◌, str_eq, if◌then◌else◌, is_some, or_else, length, filter_map, any, find?,
}
use diggy.Prelude.Distinct.{has}
use diggy.Families.Rows.{
  DjSet, SetFlag, SetFlagStatus, pending, attached, duplicate_candidate, FamilyDb, Env, Error,
  value_error, Result, ok, err, has_id, get_set,
}
use diggy.Families.Parents.{Parent, attach_pair}
use diggy.Families.Flags.{with_flag}
use diggy.Twins.Rules.{
  TwinEnv, TwinVerdict, attach, review, TwinStep, Reason, ambiguous, already_in_family,
  youtube_side_truncated, TwinSignals,
}
use diggy.Twins.Choice.{Evaluated, Choice, is_youtube, family, rank, choose}
use diggy.Twins.Search.{evaluate, is_truncated}

pub record Winner : Type 0 where
  pub winner_id : ℕ
  pub family_id : ℕ
  pub attaching : Bool
  pub step : TwinStep
  pub reason : Reason
  pub signals : TwinSignals

pub record TwinPlan : Type 0 where
  pub set_id : ℕ
  pub candidates : ℕ
  pub channel_truncated : Bool
  pub decided : Bool
  pub winner : Option Winner

-- the parents of the rows, and the sets under them
abbrev parents_of : List DjSet → List ℕ
parents_of rows = filter_map (λ r. r.parent_set_id) rows

abbrev is_sibling : List ℕ → ℕ → DjSet → Bool
is_sibling parents i s =
    has_id i s && elim s.parent_set_id [ none ↦ false | some p ↦ has ◌==◌ p parents ]

abbrev parent_id_of : Option DjSet → Option ℕ
parent_id_of none = none
parent_id_of (some s) = s.parent_set_id

abbrev family_id_of : Option DjSet → Option ℕ
family_id_of none = none
family_id_of (some r) = some (family r)

-- the dictionary `family_of`, in which a sibling comes after the rows
unfoldable pub family_of : List DjSet → FamilyDb → ℕ → Option ℕ
family_of rows db i =
    or_else (parent_id_of (find? (is_sibling (parents_of rows) i) db.sets))
      (family_id_of (find? (has_id i) rows))

abbrev pub second_family : (ℕ → Option ℕ) → Option ℕ → Option ℕ
second_family of none = none
second_family of (some b) = of b

-- the families of a flag's two sets
abbrev pub other_family : ℕ → Option ℕ → Option ℕ → Option ℕ
other_family own (some a) (some b) =
    if a == own && not (b == own)
    then some b
    else (if b == own && not (a == own) then some a else none)
other_family own _ _ = none

unfoldable pub families_with_decision : DjSet → List DjSet → FamilyDb → List ℕ
families_with_decision row candidates db =
    let of = family_of (row ∷ candidates) db in
    filter_map (λ f. other_family (family row) (of f.set_id_a) (second_family of f.set_id_b))
      db.set_flags

abbrev objects : DjSet → Option Choice → Bool
objects row none = true
objects row (some c) = not c.attached || not (family c.target.row == family row)

unfoldable pub youtube_side_objection : TwinEnv → DjSet → DjSet → FamilyDb → Option Reason
youtube_side_objection env row youtube_row db =
    if is_some youtube_row.parent_set_id
    then some already_in_family
    else (if is_truncated youtube_row db
        then some youtube_side_truncated
        else (if objects row (choose youtube_row (evaluate env youtube_row db))
            then some ambiguous
            else none))

abbrev pub overruled : Option Reason → Choice → Choice
overruled none c = c
overruled (some reason) c = record c { attached = false; reason = reason }

-- A TrackID set takes a video outside the video step only where the video would take it, too.
unfoldable pub settled : TwinEnv → DjSet → Choice → FamilyDb → Choice
settled env row c db =
    if c.attached && not (is_youtube row) && not (rank c.target == 0)
    then overruled (youtube_side_objection env row c.target.row db) c
    else c

abbrev pub winner_of : Choice → Winner
winner_of c = record {
  winner_id = c.target.row.id;
  family_id = family c.target.row;
  attaching = c.attached;
  step = c.target.decision.step;
  reason = c.reason;
  signals = c.target.decision.signals;
}

abbrev pub is_frozen : DjSet → List Evaluated → Choice → FamilyDb → Bool
is_frozen row evaluated c db =
    let decided = families_with_decision row (map (λ e. e.row) evaluated) db in
    any (λ e. has ◌==◌ (family e.row) decided) c.contested

abbrev pub planned : TwinEnv → DjSet → List Evaluated → Option Choice → FamilyDb → TwinPlan
planned env row evaluated none db = record {
  set_id = row.id;
  candidates = length evaluated;
  channel_truncated = is_truncated row db;
  decided = false;
  winner = none;
}
planned env row evaluated (some c) db = record {
  set_id = row.id;
  candidates = length evaluated;
  channel_truncated = is_truncated row db;
  decided = is_frozen row evaluated c db;
  winner = if is_frozen row evaluated c db then none else some (winner_of (settled env row c db));
}

-- a set that the control is for
abbrev pub is_controlled : DjSet → Bool
is_controlled row =
    not row.is_virtual && (is_youtube row || str_eq row.source "trackid" && not row.unreliable)

abbrev pub no_plan : ℕ → TwinPlan
no_plan i = record {
  set_id = i;
  candidates = 0;
  channel_truncated = false;
  decided = false;
  winner = none;
}

abbrev pub plan_row : TwinEnv → DjSet → FamilyDb → TwinPlan
plan_row env row db =
    let evaluated = evaluate env row db in
    if is_controlled row
    then planned env row evaluated (choose row evaluated) db
    else no_plan row.id

abbrev pub plan_found : TwinEnv → ℕ → Option DjSet → FamilyDb → TwinPlan
plan_found env i none db = no_plan i
plan_found env i (some row) db = plan_row env row db

unfoldable pub plan_twin_for_set : TwinEnv → ℕ → FamilyDb → TwinPlan
plan_twin_for_set env i db = plan_found env i (get_set i db) db

abbrev pub twin_flag : ℕ → ℕ → ℕ → Option ℕ → SetFlagStatus → SetFlag
twin_flag id a b resolved_at status = record {
  id = id;
  set_id_a = min a b;
  set_id_b = some (max a b);
  flag_type = duplicate_candidate;
  confidence = none;
  twin_rule = true;
  status = status;
  resolved_by = none;
  resolved_at = resolved_at;
  group_key = none;
  member_set_ids = [];
}

pub record TwinCounts : Type 0 where
  pub n_attached : ℕ
  pub n_flagged : ℕ
  pub attach_errors : ℕ

pub record Reconciled : Type 0 where
  pub counts : TwinCounts
  pub db : FamilyDb

abbrev pub none_written : TwinCounts
none_written = record { n_attached = 0; n_flagged = 0; attach_errors = 0 }

-- `except ValueError`; attach_pair raises it before it writes.
abbrev pub written : ℕ → ℕ → ℕ → FamilyDb → Result Parent → Result Reconciled
written now i w db (ok parent) = ok (record {
  counts = record none_written { n_attached = 1 };
  db = with_flag (twin_flag parent.db.next_flag_id i w (some now) attached) parent.db;
})
written now i w db (err value_error) =
    ok (record { counts = record none_written { attach_errors = 1 }; db = db })
written now i w db (err e) = err e

unfoldable pub apply_twin_plan : Env → ℕ → ℕ → Winner → FamilyDb → Result Reconciled
apply_twin_plan env now i winner db =
    if winner.attaching
    then written now i winner.winner_id db (attach_pair env i winner.winner_id db)
    else ok (record {
      counts = record none_written { n_flagged = 1 };
      db = with_flag (twin_flag db.next_flag_id i winner.winner_id none pending) db;
    })

abbrev pub apply_winner : Env → ℕ → ℕ → Option Winner → FamilyDb → Result Reconciled
apply_winner env now i none db = ok (record { counts = none_written; db = db })
apply_winner env now i (some w) db = apply_twin_plan env now i w db

unfoldable pub reconcile_twins_for_set : Env → TwinEnv → ℕ → ℕ → FamilyDb → Result Reconciled
reconcile_twins_for_set env twin_env now i db =
    apply_winner env now i (plan_twin_for_set twin_env i db).winner db

-- Whatever is raised, the savepoint is rolled back.
abbrev pub kept : FamilyDb → Result Reconciled → FamilyDb
kept db (ok r) = r.db
kept db (err e) = db

unfoldable pub reconcile_twins_best_effort : Env → TwinEnv → ℕ → ℕ → FamilyDb → FamilyDb
reconcile_twins_best_effort env twin_env now i db =
    kept db (reconcile_twins_for_set env twin_env now i db)
