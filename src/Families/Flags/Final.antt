-- ===== src/Families/Flags/Final.antt =====
-- A flag is resolved once: attaching its sets or rejecting it closes it for good.
use diggy.Prelude.{
  ℕ, ◌≡◌, ◌≢◌, refl, ◌∙◌, sym, ap, subst, Bool, true, false, Option, none, some, List, [], ◌∷◌,
  arith, find?, find?-eq-some, filter, not, update_where, updated, find?-update_where,
}
use diggy.Families.Rows.{
  SetFlag, SetFlagStatus, pending, attached, rejected, FamilyDb, Env, ok, err, ◌>>=◌, lookup_error,
  get_set,
}
use diggy.Families.Results.{Ensures, Ensures-bind, Ensures-or_raise, Ensures-ok}
use diggy.Families.Parents.{Parent, find_or_create_virtual_parent, attach_group_members}
use diggy.Families.Parents.SameFlags.{
  SameFlags, find_or_create_flags, materialized_flags, attach_pair_flags, GroupFlags,
  attach_group_members_flags,
}
use diggy.Families.Flags.{
  has_flag_id, is_pending, open_flag, resolve, resolved, the_parent, attach_two, get_second,
  attach_flagged_pair, attach_flagged, attach_flag, reject_flag,
}

attach_two_flags :
    (env : Env) (twin : Bool) (a b : ℕ) (db : FamilyDb)
    → Ensures (SameFlags db) (attach_two env twin a b db)
attach_two_flags env true a b db = attach_pair_flags env a b db
attach_two_flags env false a b db =
    Ensures-bind (SameFlags db) (SameFlags db) (find_or_create_virtual_parent env a b none none db)
      _ (find_or_create_flags env a b none none db) (materialized_flags env db)

attach_flagged_pair_flags :
    (env : Env) (f : SetFlag) (db : FamilyDb)
    → Ensures (SameFlags db) (attach_flagged_pair env f db)
attach_flagged_pair_flags env f db =
    Ensures-or_raise (SameFlags db) (get_set f.set_id_a db) lookup_error _ (λ set_a e.
      Ensures-or_raise (SameFlags db) (get_second f.set_id_b db) lookup_error _
        (λ set_b g. attach_two_flags env f.twin_rule set_a.id set_b.id db))

the_parent_flags :
    (db : FamilyDb) (found : Option Parent)
    → GroupFlags db found
    → Ensures (SameFlags db) (the_parent found)
the_parent_flags db none h = tt
the_parent_flags db (some parent) h = h

attach_flagged_flags :
    (env : Env) (f : SetFlag) (db : FamilyDb) → Ensures (SameFlags db) (attach_flagged env f db)
attach_flagged_flags env f db =
    elim f.member_set_ids
      as (λ ids. Ensures (SameFlags db) (elim ids [
        | [] ↦ attach_flagged_pair env f db
        | m ∷ ms ↦ attach_group_members env (m ∷ ms) f.group_key db >>= the_parent
      ])) [
        | [] ↦ attach_flagged_pair_flags env f db
        | m ∷ ms ↦
            Ensures-bind (SameFlags db) (GroupFlags db)
              (attach_group_members env (m ∷ ms) f.group_key db) the_parent
              (attach_group_members_flags env (m ∷ ms) f.group_key db) (the_parent_flags db)
      ]

-- the flag `i` is not open
abbrev IsClosed : ℕ → List SetFlag → Type 0
IsClosed i flags = open_flag (find? (has_flag_id i) flags) ≡ none

closed_option :
    (i : ℕ) (status : SetFlagStatus) (by now : ℕ) (o : Option SetFlag)
    → status ≢ pending
    → ((f : SetFlag) → o ≡ some f → has_flag_id i f ≡ true)
    → open_flag (
        updated
          (has_flag_id i)
          (λ f. record f { status = status; resolved_by = some by; resolved_at = some now })
          o)
      ≡ none
closed_option i status by now none h k = refl
closed_option i status by now (some f) h k = ground (arith, k f refl)

resolve-IsClosed :
    (i : ℕ) (status : SetFlagStatus) (by now : ℕ) (db : FamilyDb)
    → status ≢ pending
    → IsClosed i (resolve i status by now db).set_flags
unfolding resolve
resolve-IsClosed i status by now db h =
    ap open_flag (find?-update_where (has_flag_id i) (has_flag_id i) _ db.set_flags (λ x. refl))
    ∙ closed_option i status by now (find? (has_flag_id i) db.set_flags) h
        (λ f e. find?-eq-some (has_flag_id i) db.set_flags f e)

-- Both resolutions of the flag `i` are refused.
pub record IsFinal (env : Env) (i by now : ℕ) (db : FamilyDb) : Type 0 where
  pub no_attach : attach_flag env i by now db ≡ err lookup_error
  pub no_reject : reject_flag i by now db ≡ err lookup_error

closed-IsFinal :
    (env : Env) (i by now : ℕ) (db : FamilyDb) → IsClosed i db.set_flags → IsFinal env i by now db
unfolding attach_flag reject_flag
closed-IsFinal env i by now db h = record { no_attach = rw h refl; no_reject = rw h refl }

-- One resolution of the flag `i`, as an endpoint makes it.
pub data Resolves (env : Env) (i by now : ℕ) (before : FamilyDb)
    : SetFlagStatus → FamilyDb → Type 0 where
  attaching :
      (parent : Parent)
      → attach_flag env i by now before ≡ ok parent
      → Resolves env i by now before attached parent.db
  rejecting :
      (after : FamilyDb)
      → reject_flag i by now before ≡ ok after
      → Resolves env i by now before rejected after

-- the list of flags as `resolve` leaves it
abbrev Written : ℕ → SetFlagStatus → ℕ → ℕ → FamilyDb → FamilyDb → Type 0
Written i status by now before after = after.set_flags ≡ (resolve i status by now before).set_flags

-- The flag `i` was pending and now has the status, the admin and the time, and is otherwise what it
-- was; every other flag is what it was.
pub record IsResolved (i : ℕ) (status : SetFlagStatus) (by now : ℕ) (before after : FamilyDb)
    : Type 0 where
  pub resolved_flag : SetFlag
  pub found : find? (has_flag_id i) before.set_flags ≡ some resolved_flag
  pub was_pending : resolved_flag.status ≡ pending
  pub written :
      find? (has_flag_id i) after.set_flags
      ≡ some
          (record resolved_flag { status = status; resolved_by = some by; resolved_at = some now })
  pub others :
      filter (λ f. not (has_flag_id i f)) after.set_flags
      ≡ filter (λ f. not (has_flag_id i f)) before.set_flags

open_flag-pending :
    (o : Option SetFlag) (f : SetFlag) → open_flag o ≡ some f → (o ≡ some f) × (f.status ≡ pending)
open_flag-pending none f h = ground arith
open_flag-pending (some g) f h =
    let p : is_pending g ≡ true = ground arith in
    let same : g ≡ f = ground (arith, p) in
    (ap some same, subst (λ x. x.status ≡ pending) same (status_pending g.status p))
  where
    status_pending :
        (s : SetFlagStatus) → elim s [ pending ↦ true | _ ↦ false ] ≡ true → s ≡ pending
    status_pending pending h = refl
    status_pending attached h = ground arith
    status_pending rejected h = ground arith

others-update_where :
    (i : ℕ) (f : SetFlag → SetFlag) (flags : List SetFlag)
    → ((g : SetFlag) → (f g).id ≡ g.id)
    → filter (λ g. not (has_flag_id i g)) (update_where (has_flag_id i) f flags)
      ≡ filter (λ g. not (has_flag_id i g)) flags
others-update_where i f [] h = refl
others-update_where i f (g ∷ flags) h = ground (arith, h g, others-update_where i f flags h)

Written-IsResolved :
    (i : ℕ) (status : SetFlagStatus) (by now : ℕ) (before after : FamilyDb) (f : SetFlag)
    → open_flag (find? (has_flag_id i) before.set_flags) ≡ some f
    → Written i status by now before after
    → IsResolved i status by now before after
unfolding resolve
Written-IsResolved i status by now before after f h w =
    let p = open_flag-pending (find? (has_flag_id i) before.set_flags) f h in
    let g = λ (x : SetFlag). record x {
      status = status;
      resolved_by = some by;
      resolved_at = some now;
    } in
    record {
      resolved_flag = f;
      found = p.0;
      was_pending = p.1;
      written =
          ap (find? (has_flag_id i)) w
          ∙ find?-update_where (has_flag_id i) (has_flag_id i) g before.set_flags (λ x. refl)
          ∙ ap (updated (has_flag_id i) g) p.0
          ∙ updated_here f (find?-eq-some (has_flag_id i) before.set_flags f p.0);
      others =
          ap (filter (λ x. not (has_flag_id i x))) w
          ∙ others-update_where i g before.set_flags (λ x. refl);
    }
  where
    updated_here :
        (x : SetFlag)
        → has_flag_id i x ≡ true
        → updated
            (has_flag_id i)
            (λ y. record y { status = status; resolved_by = some by; resolved_at = some now })
            (some x)
          ≡ some (record x { status = status; resolved_by = some by; resolved_at = some now })
    updated_here x e = rw e refl

Written-IsFinal :
    (env : Env) (i : ℕ) (status : SetFlagStatus) (by now : ℕ) (before after : FamilyDb)
    → status ≢ pending
    → Written i status by now before after
    → (other later : ℕ) → IsFinal env i other later after
Written-IsFinal env i status by now before after h w other later =
    closed-IsFinal env i other later after
      (subst (IsClosed i) (sym w) (resolve-IsClosed i status by now before h))

attach_flag-IsResolved :
    (env : Env) (i by now : ℕ) (db : FamilyDb)
    → Ensures
        (λ parent.
          Written i attached by now db parent.db × IsResolved i attached by now db parent.db)
        (attach_flag env i by now db)
unfolding attach_flag resolve
attach_flag-IsResolved env i by now db =
    let Q = λ (parent : Parent).
      Written i attached by now db parent.db × IsResolved i attached by now db parent.db in
    Ensures-or_raise Q (open_flag (find? (has_flag_id i) db.set_flags)) lookup_error _ (λ f e.
      Ensures-bind Q (SameFlags db) (attach_flagged env f db) _ (attach_flagged_flags env f db)
        (λ parent h.
          let w : Written i attached by now db (resolved i attached by now parent).db = rw h refl in
          (w, Written-IsResolved i attached by now db _ f e w)))

reject_flag-IsResolved :
    (i by now : ℕ) (db : FamilyDb)
    → Ensures
        (λ after. Written i rejected by now db after × IsResolved i rejected by now db after)
        (reject_flag i by now db)
unfolding reject_flag
reject_flag-IsResolved i by now db =
    Ensures-or_raise
      (λ after. Written i rejected by now db after × IsResolved i rejected by now db after)
      (open_flag (find? (has_flag_id i) db.set_flags)) lookup_error _
      (λ f e. (refl, Written-IsResolved i rejected by now db _ f e refl))

-- A resolution of a flag, by attaching its sets or by rejecting it, finds the flag pending, writes
-- the status, the admin and the time on it and nothing else, and changes no other flag; both
-- endpoints refuse the flag from then on with a LookupError.
pub Resolves-IsFinal :
    (env : Env) (i by now : ℕ) (before after : FamilyDb) (status : SetFlagStatus)
    → Resolves env i by now before status after
    → IsResolved i status by now before after
      × ((other later : ℕ) → IsFinal env i other later after)
Resolves-IsFinal env i by now before _ _ (attaching parent h) =
    let w =
      Ensures-ok
        (λ parent.
          Written i attached by now before parent.db
          × IsResolved i attached by now before parent.db)
        (attach_flag env i by now before) parent (attach_flag-IsResolved env i by now before) h in
    (w.1, Written-IsFinal env i attached by now before parent.db (λ e. cc) w.0)
Resolves-IsFinal env i by now before _ _ (rejecting after h) =
    let w =
      Ensures-ok
        (λ after.
          Written i rejected by now before after × IsResolved i rejected by now before after)
        (reject_flag i by now before) after (reject_flag-IsResolved i by now before) h in
    (w.1, Written-IsFinal env i rejected by now before after (λ e. cc) w.0)
