-- ===== src/Families/Flags/Keep.antt =====
-- Applying the results of a matching, and resolving a flag, keep the real sets.
use diggy.Prelude.{
  ℕ, min, max, Bool, true, false, ◌&&◌, Option, none, some, List, [], ◌∷◌, Bool-cases, inl, inr,
  or_else, find?, filter,
}
use diggy.Sets.Verdict.{MatchVerdict, auto_attach, flag, nothing}
use diggy.Families.Rows.{
  SetFlag, attached, FamilyDb, Env, Result, ok, err, ◌>>=◌, or_raise, lookup_error, get_set,
}
use diggy.Families.Parents.{
  Parent, find_or_create_virtual_parent, materialized, attach_group_members,
}
use diggy.Families.Parents.Real.{
  KeepsReal, KeepsReal-refl, KeepsReal-trans, Keeps, Keeps-bind, Keeps-after, find_or_create-Keeps,
}
use diggy.Families.Parents.Safe.{
  attach_pair-KeepsReal, group_db, attach_group_members-Keeps, materialized-Keeps,
}
use diggy.Families.Flags.{
  has_flag_id, open_flag, resolve, the_parent, attach_two, get_second, attach_flagged_pair,
  attach_flagged, resolved, attach_flag, MatchResult, GroupMatchResult, Applied, one_or_none,
  flags_pair, flags_group, pair_flag, flag_if_new, played_of, apply_verdict, apply_pairs,
  write_flag, least, flag_group, after_attach, attach_group, apply_group, apply_groups,
  apply_match_results, is_rejected_flag, is_part_candidate, group_dates_coherent,
}

-- flags are no part of a set
abbrev WithFlags : FamilyDb → List SetFlag → ℕ → FamilyDb
WithFlags db flags next = record db { set_flags = flags; next_flag_id = next }

pub flags-KeepsReal :
    (before db : FamilyDb) (flags : List SetFlag) (next : ℕ)
    → KeepsReal before db
    → KeepsReal before (WithFlags db flags next)
flags-KeepsReal before db flags next h = record {
  rows = h.rows;
  tracks = h.tracks;
  artists = h.artists;
}

attach_two-Keeps :
    (env : Env) (twin : Bool) (a b : ℕ) (db : FamilyDb)
    → Keeps (λ r. r.db) db (attach_two env twin a b db)
attach_two-Keeps env true a b db = attach_pair-KeepsReal env a b db
attach_two-Keeps env false a b db =
    Keeps-bind db (λ r. r.db) (λ r. r.db) (find_or_create_virtual_parent env a b none none db)
      (λ parent. ok (materialized env parent)) (find_or_create-Keeps env a b none none db)
      (λ parent h. materialized-Keeps env db parent h)

attach_flagged_pair-Keeps :
    (env : Env) (f : SetFlag) (db : FamilyDb) → Keeps (λ r. r.db) db (attach_flagged_pair env f db)
attach_flagged_pair-Keeps env f db =
    Keeps-after db (λ r. r.db) (or_raise (get_set f.set_id_a db) lookup_error) _
      (λ set_a.
        Keeps-after db (λ r. r.db) (or_raise (get_second f.set_id_b db) lookup_error)
          (λ set_b. attach_two env f.twin_rule set_a.id set_b.id db)
          (λ set_b. attach_two-Keeps env f.twin_rule set_a.id set_b.id db))

the_parent-Keeps :
    (before : FamilyDb) (found : Option Parent)
    → KeepsReal before (group_db before found)
    → Keeps (λ r. r.db) before (the_parent found)
the_parent-Keeps before none h = tt
the_parent-Keeps before (some parent) h = h

members-Keeps :
    (env : Env) (ids : List ℕ) (f : SetFlag) (db : FamilyDb)
    → Keeps (λ r. r.db) db (attach_group_members env ids f.group_key db >>= the_parent)
members-Keeps env ids f db =
    Keeps-bind db (λ r. r.db) (group_db db) (attach_group_members env ids f.group_key db) the_parent
      (attach_group_members-Keeps env ids f.group_key db) (the_parent-Keeps db)

attach_flagged-Keeps :
    (env : Env) (f : SetFlag) (db : FamilyDb) → Keeps (λ r. r.db) db (attach_flagged env f db)
attach_flagged-Keeps env f db =
    elim f.member_set_ids
      as (λ ids.
        Keeps (λ r. r.db) db
          (elim ids [
            | [] ↦ attach_flagged_pair env f db
            | m ∷ ms ↦ attach_group_members env (m ∷ ms) f.group_key db >>= the_parent
          ])) [ [] ↦ attach_flagged_pair-Keeps env f db | m ∷ ms ↦ members-Keeps env (m ∷ ms) f db ]

-- Attaching the sets of a flag leaves every real set its row, but for the parent, its tracks and
-- its artists.
pub attach_flag-KeepsReal :
    (env : Env) (flag_id resolved_by now : ℕ) (db : FamilyDb)
    → Keeps (λ r. r.db) db (attach_flag env flag_id resolved_by now db)
unfolding attach_flag resolve
attach_flag-KeepsReal env flag_id resolved_by now db =
    Keeps-after db (λ r. r.db)
      (or_raise (open_flag (find? (has_flag_id flag_id) db.set_flags)) lookup_error) _
      (λ f.
        Keeps-bind db (λ r. r.db) (λ r. r.db) (attach_flagged env f db)
          (λ parent. ok (resolved flag_id attached resolved_by now parent))
          (attach_flagged-Keeps env f db)
          (λ parent h. flags-KeepsReal db parent.db _ parent.db.next_flag_id h))

abbrev Step : Applied → Result Applied → Type 0
Step s m = Keeps (λ r. r.db) s.db m

flag_if_new-Keeps :
    (o : Option SetFlag) (f : SetFlag) (s : Applied) → KeepsReal s.db (flag_if_new o f s).db
flag_if_new-Keeps none f s = flags-KeepsReal s.db s.db _ _ (KeepsReal-refl s.db)
flag_if_new-Keeps (some old) f s = KeepsReal-refl s.db

apply_verdict-Keeps :
    (env : Env) (i : ℕ) (v : MatchVerdict) (r : MatchResult) (s : Applied)
    → Step s (apply_verdict env i v r s)
apply_verdict-Keeps env i auto_attach r s =
    let date = or_else (played_of (get_set i s.db)) (played_of (get_set r.candidate_id s.db)) in
    Keeps-bind s.db (λ r. r.db) (λ r. r.db)
      (find_or_create_virtual_parent env i r.candidate_id date none s.db) _
      (find_or_create-Keeps env i r.candidate_id date none s.db)
      (λ parent h. materialized-Keeps env s.db parent h)
apply_verdict-Keeps env i flag r s =
    let a = min i r.candidate_id in
    let b = max i r.candidate_id in
    Keeps-after s.db (λ r. r.db) (one_or_none (filter (flags_pair a b) s.db.set_flags)) _
      (λ existing. flag_if_new-Keeps existing (pair_flag s.db.next_flag_id a b r) s)
apply_verdict-Keeps env i nothing r s = KeepsReal-refl s.db

-- what a step keeps, the steps after it may add to
Keeps-from :
    (before db : FamilyDb) (m : Result Applied)
    → KeepsReal before db
    → Keeps (λ r. r.db) db m
    → Keeps (λ r. r.db) before m
Keeps-from before db (ok s) h k = KeepsReal-trans before db s.db h k
Keeps-from before db (err e) h k = tt

apply_pairs-Keeps :
    (env : Env) (i : ℕ) (rs : List MatchResult) (s : Applied) → Step s (apply_pairs env i rs s)
unfolding apply_pairs
apply_pairs-Keeps env i [] s = KeepsReal-refl s.db
apply_pairs-Keeps env i (r ∷ rs) s =
    Keeps-bind s.db (λ r. r.db) (λ r. r.db) (apply_verdict env i r.verdict r s)
      (apply_pairs env i rs) (apply_verdict-Keeps env i r.verdict r s)
      (λ s' h. Keeps-from s.db s'.db (apply_pairs env i rs s') h (apply_pairs-Keeps env i rs s'))

write_flag-Keeps :
    (before db : FamilyDb) (o : Option SetFlag) (f : SetFlag → SetFlag)
    → KeepsReal before db
    → KeepsReal before (write_flag o f db)
write_flag-Keeps before db none f h = h
write_flag-Keeps before db (some old) f h = flags-KeepsReal before db _ db.next_flag_id h

flag_group-Keeps :
    (o : Option SetFlag) (gr : GroupMatchResult) (s : Applied) → Step s (flag_group o gr s)
flag_group-Keeps none gr s =
    Keeps-after s.db (λ r. r.db) (least gr.member_set_ids) _
      (λ a. flags-KeepsReal s.db s.db _ _ (KeepsReal-refl s.db))
flag_group-Keeps (some old) gr s = write_flag-Keeps s.db s.db (some old) _ (KeepsReal-refl s.db)

after_attach-Keeps :
    (now : ℕ) (o : Option SetFlag) (gr : GroupMatchResult) (s : Applied) (found : Option Parent)
    → KeepsReal s.db (group_db s.db found)
    → Step s (after_attach now o gr s found)
after_attach-Keeps now o gr s none h = flag_group-Keeps o gr s
after_attach-Keeps now o gr s (some parent) h = write_flag-Keeps s.db parent.db o _ h

attach_group-Keeps :
    (env : Env) (now : ℕ) (o : Option SetFlag) (gr : GroupMatchResult) (s : Applied)
    → Step s (attach_group env now o gr s)
attach_group-Keeps env now o gr s =
    Keeps-bind s.db (λ r. r.db) (group_db s.db)
      (attach_group_members env gr.member_set_ids (some gr.group_key) s.db) _
      (attach_group_members-Keeps env gr.member_set_ids (some gr.group_key) s.db)
      (λ found h. after_attach-Keeps now o gr s found h)

apply_group-Keeps :
    (env : Env) (now : ℕ) (gr : GroupMatchResult) (s : Applied) (o : Option SetFlag)
    → Step s (apply_group env now gr s o)
unfolding apply_group
apply_group-Keeps env now gr s o = elim (Bool-cases (is_rejected_flag o)) [
  | inl e ↦ rw e (KeepsReal-refl s.db)
  | inr e ↦
      elim (Bool-cases
        (is_part_candidate gr.flag_type && group_dates_coherent env gr.member_set_ids s.db)) [
          | inl f ↦ rw (e, f) (attach_group-Keeps env now o gr s)
          | inr f ↦ rw (e, f) (flag_group-Keeps o gr s)
        ]
]

apply_groups-Keeps :
    (env : Env) (now : ℕ) (grs : List GroupMatchResult) (s : Applied)
    → Step s (apply_groups env now grs s)
unfolding apply_groups
apply_groups-Keeps env now [] s = KeepsReal-refl s.db
apply_groups-Keeps env now (gr ∷ grs) s =
    Keeps-after s.db (λ r. r.db) (one_or_none (filter (flags_group gr.group_key) s.db.set_flags)) _
      (λ o.
        Keeps-bind s.db (λ r. r.db) (λ r. r.db) (apply_group env now gr s o)
          (apply_groups env now grs) (apply_group-Keeps env now gr s o)
          (λ s' h.
            Keeps-from s.db s'.db (apply_groups env now grs s') h
              (apply_groups-Keeps env now grs s')))

-- However many pairs and groups a matching attaches or flags, where it does not raise, every real
-- set keeps its row, but for the parent, its tracks and its artists.
pub apply_match_results-KeepsReal :
    (env : Env) (now i : ℕ) (pairs : List MatchResult) (groups : List GroupMatchResult)
    (db : FamilyDb)
    → Keeps (λ r. r.db) db (apply_match_results env now i pairs groups db)
unfolding apply_match_results
apply_match_results-KeepsReal env now i pairs groups db =
    let s : Applied = record {
      counts = record { n_attached = 0; n_flagged = 0; n_nothing = 0 };
      db = db;
    } in
    Keeps-bind db (λ r. r.db) (λ r. r.db) (apply_pairs env i pairs s) (apply_groups env now groups)
      (apply_pairs-Keeps env i pairs s)
      (λ s' h.
        Keeps-from db s'.db (apply_groups env now groups s') h
          (apply_groups-Keeps env now groups s'))
