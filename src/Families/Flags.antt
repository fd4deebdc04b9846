-- ===== src/Families/Flags.antt =====
-- `attach_flag`, `reject_flag`, `group_dates_coherent` and `apply_match_results`: what the matching
-- of a set does to the families, and how an admin resolves what it leaves open.
pub mod Final
pub mod Keep
pub mod Once
use diggy.Prelude.{
  ℕ, zero, suc, ◌+◌, max, min, Bool, true, false, not, ◌&&◌, ◌||◌, Option, none, some, List, [],
  ◌∷◌, ◌++◌, map, ltb, leb, ◌==◌, if◌then◌else◌, is_some, or_else, length, filter, filter_map, any,
  find?, update_where,
}
use diggy.Prelude.Text.{Text, text_eq}
use diggy.Prelude.Distinct.{first_seen}
use diggy.Sets.Verdict.{MatchVerdict, auto_attach, flag, nothing}
use diggy.Sets.Signals.{DateSignature, same_date}
use diggy.Families.Rows.{
  DjSet, SetFlag, SetFlagType, duplicate_candidate, part_candidate, part_overlap_anomaly,
  SetFlagStatus, pending, attached, rejected, FamilyDb, Env, Result, ok, err, ◌>>=◌, ◌>>◌, or_raise,
  raise_if, Error, lookup_error, value_error, attribute_error, multiple_results, has_id, get_set,
}
use diggy.Families.Parts.{nonempty}
use diggy.Families.Parents.{
  Parent, find_or_create_virtual_parent, materialized, attach_pair, attach_group_members, is_member,
}

abbrev pub has_flag_id : ℕ → SetFlag → Bool
has_flag_id i f = f.id == i

abbrev pub is_pending : SetFlag → Bool
is_pending f = elim f.status [ pending ↦ true | _ ↦ false ]

abbrev pub is_rejected : SetFlag → Bool
is_rejected f = elim f.status [ rejected ↦ true | _ ↦ false ]

-- a flag that an admin can still resolve
abbrev open_flag : Option SetFlag → Option SetFlag
open_flag none = none
open_flag (some f) = if is_pending f then some f else none

unfoldable pub resolve : ℕ → SetFlagStatus → ℕ → ℕ → FamilyDb → FamilyDb
resolve i status resolved_by now db = record db {
  set_flags =
      update_where (has_flag_id i)
        (λ f. record f { status = status; resolved_by = some resolved_by; resolved_at = some now })
        db.set_flags;
}

abbrev the_parent : Option Parent → Result Parent
the_parent none = err lookup_error
the_parent (some parent) = ok parent

abbrev attach_two : Env → Bool → ℕ → ℕ → FamilyDb → Result Parent
attach_two env true a b db = attach_pair env a b db
attach_two env false a b db = do
  parent ← find_or_create_virtual_parent env a b none none db
  ok (materialized env parent)

-- a set_id_b that is NULL finds no set
abbrev get_second : Option ℕ → FamilyDb → Option DjSet
get_second none db = none
get_second (some b) db = get_set b db

abbrev attach_flagged_pair : Env → SetFlag → FamilyDb → Result Parent
attach_flagged_pair env f db = do
  set_a ← or_raise (get_set f.set_id_a db) lookup_error
  set_b ← or_raise (get_second f.set_id_b db) lookup_error
  attach_two env f.twin_rule set_a.id set_b.id db

abbrev attach_flagged : Env → SetFlag → FamilyDb → Result Parent
attach_flagged env f db = elim f.member_set_ids [
  | [] ↦ attach_flagged_pair env f db
  | m ∷ ms ↦ do found ← attach_group_members env (m ∷ ms) f.group_key db; the_parent found
]

abbrev resolved : ℕ → SetFlagStatus → ℕ → ℕ → Parent → Parent
resolved i status resolved_by now parent = record parent {
  db = resolve i status resolved_by now parent.db;
}

unfoldable pub attach_flag : Env → ℕ → ℕ → ℕ → FamilyDb → Result Parent
attach_flag env flag_id resolved_by now db = do
  f ← or_raise (open_flag (find? (has_flag_id flag_id) db.set_flags)) lookup_error
  parent ← attach_flagged env f db
  ok (resolved flag_id attached resolved_by now parent)

unfoldable pub reject_flag : ℕ → ℕ → ℕ → FamilyDb → Result FamilyDb
reject_flag flag_id resolved_by now db = do
  f ← or_raise (open_flag (find? (has_flag_id flag_id) db.set_flags)) lookup_error
  ok (resolve flag_id rejected resolved_by now db)

-- MatchResult and GroupMatchResult, of the fields that are stored or read; the flag type of a pair
-- that is flagged is always "duplicate_candidate"
pub record MatchResult : Type 0 where
  pub candidate_id : ℕ
  pub verdict : MatchVerdict
  pub confidence : ℕ

pub record GroupMatchResult : Type 0 where
  pub group_key : Text
  pub member_set_ids : List ℕ
  pub confidence : ℕ
  pub flag_type : SetFlagType

pub record MatchCounts : Type 0 where
  pub n_attached : ℕ
  pub n_flagged : ℕ
  pub n_nothing : ℕ

pub record Applied : Type 0 where
  pub counts : MatchCounts
  pub db : FamilyDb

abbrev one_attached : MatchCounts → MatchCounts
one_attached c = record c { n_attached = suc c.n_attached }

abbrev one_flagged : MatchCounts → MatchCounts
one_flagged c = record c { n_flagged = suc c.n_flagged }

abbrev one_nothing : MatchCounts → MatchCounts
one_nothing c = record c { n_nothing = suc c.n_nothing }

-- `scalar_one_or_none()`
abbrev one_or_none : List SetFlag → Result (Option SetFlag)
one_or_none [] = ok none
one_or_none (f ∷ []) = ok (some f)
one_or_none (f ∷ g ∷ fs) = err multiple_results

abbrev pub flags_pair : ℕ → ℕ → SetFlag → Bool
flags_pair a b f = f.set_id_a == a && elim f.set_id_b [ none ↦ false | some c ↦ c == b ]

-- a flag of the two sets, whichever is named first
abbrev pub flags_two : ℕ → ℕ → SetFlag → Bool
flags_two a b f = flags_pair a b f || flags_pair b a f

abbrev pub flags_group : Text → SetFlag → Bool
flags_group key f = elim f.group_key [ none ↦ false | some k ↦ text_eq k key ]

abbrev pub with_flag : SetFlag → FamilyDb → FamilyDb
with_flag f db = record db {
  set_flags = db.set_flags ++ f ∷ [];
  next_flag_id = suc db.next_flag_id;
}

abbrev pub pair_flag : ℕ → ℕ → ℕ → MatchResult → SetFlag
pair_flag id a b r = record {
  id = id;
  set_id_a = a;
  set_id_b = some b;
  flag_type = duplicate_candidate;
  confidence = some r.confidence;
  twin_rule = false;
  status = pending;
  resolved_by = none;
  resolved_at = none;
  group_key = none;
  member_set_ids = [];
}

abbrev flag_if_new : Option SetFlag → SetFlag → Applied → Applied
flag_if_new none f s = record { counts = one_flagged s.counts; db = with_flag f s.db }
flag_if_new (some old) f s = s

abbrev played_of : Option DjSet → Option ℕ
played_of none = none
played_of (some s) = s.played_date

abbrev apply_verdict : Env → ℕ → MatchVerdict → MatchResult → Applied → Result Applied
apply_verdict env i auto_attach r s = do
  parent ←
      find_or_create_virtual_parent env i r.candidate_id
        (or_else (played_of (get_set i s.db)) (played_of (get_set r.candidate_id s.db))) none s.db
  ok (record { counts = one_attached s.counts; db = (materialized env parent).db })
apply_verdict env i flag r s = do
  let a = min i r.candidate_id
  let b = max i r.candidate_id
  existing ← one_or_none (filter (flags_pair a b) s.db.set_flags)
  ok (flag_if_new existing (pair_flag s.db.next_flag_id a b r) s)
apply_verdict env i nothing r s = ok (record s { counts = one_nothing s.counts })

unfoldable pub apply_pairs : Env → ℕ → List MatchResult → Applied → Result Applied
apply_pairs env i [] s = ok s
apply_pairs env i (r ∷ rs) s = do s' ← apply_verdict env i r.verdict r s; apply_pairs env i rs s'

abbrev signatures_of : Env → List DjSet → List DateSignature
signatures_of env [] = []
signatures_of env (s ∷ ss) = env.title_dates s.title ++ signatures_of env ss

unfoldable pub group_dates_coherent : Env → List ℕ → FamilyDb → Bool
group_dates_coherent env member_ids db =
    let members = filter (is_member member_ids) db.sets in
    leb (length (first_seen ◌==◌ (filter_map (λ s. s.event_date) members))) 1
    && leb (length (first_seen same_date (signatures_of env members))) 1

abbrev is_part_candidate : SetFlagType → Bool
is_part_candidate part_candidate = true
is_part_candidate _ = false

abbrev is_rejected_flag : Option SetFlag → Bool
is_rejected_flag none = false
is_rejected_flag (some f) = is_rejected f

-- What an attached group writes on its flag.
unfoldable pub attached_group : ℕ → GroupMatchResult → SetFlag → SetFlag
attached_group now gr f =
    let g = record f {
      member_set_ids = gr.member_set_ids;
      twin_rule = false;
      confidence = some gr.confidence;
    } in
    if is_pending f then record g { status = attached; resolved_at = some now } else g

unfoldable pub extended_group : GroupMatchResult → SetFlag → SetFlag
extended_group gr f = record f {
  member_set_ids = gr.member_set_ids;
  twin_rule = false;
  confidence = some gr.confidence;
  flag_type = gr.flag_type;
}

abbrev write_flag : Option SetFlag → (SetFlag → SetFlag) → FamilyDb → FamilyDb
write_flag none f db = db
write_flag (some old) f db = record db {
  set_flags = update_where (has_flag_id old.id) f db.set_flags;
}

-- min(ids), which raises where there are none
abbrev least_from : ℕ → List ℕ → ℕ
least_from i [] = i
least_from i (j ∷ is) = least_from (min i j) is

abbrev least : List ℕ → Result ℕ
least [] = err value_error
least (i ∷ is) = ok (least_from i is)

-- `a` is min(gr.member_set_ids)
abbrev pub group_flag : ℕ → ℕ → GroupMatchResult → SetFlag
group_flag id a gr = record {
  id = id;
  set_id_a = a;
  set_id_b = none;
  flag_type = gr.flag_type;
  confidence = some gr.confidence;
  twin_rule = false;
  status = pending;
  resolved_by = none;
  resolved_at = none;
  group_key = some gr.group_key;
  member_set_ids = gr.member_set_ids;
}

-- The last part of the loop: the flag is extended, or added.
abbrev flag_group : Option SetFlag → GroupMatchResult → Applied → Result Applied
flag_group none gr s = do
  a ← least gr.member_set_ids
  ok (record {
    counts = one_flagged s.counts;
    db = with_flag (group_flag s.db.next_flag_id a gr) s.db;
  })
flag_group (some old) gr s =
    ok (record {
      counts = one_flagged s.counts;
      db = write_flag (some old) (extended_group gr) s.db;
    })

abbrev after_attach :
    ℕ → Option SetFlag → GroupMatchResult → Applied → Option Parent → Result Applied
after_attach now existing gr s none = flag_group existing gr s
after_attach now existing gr s (some parent) = ok (record {
  counts = one_attached s.counts;
  db = write_flag existing (attached_group now gr) parent.db;
})

abbrev attach_group : Env → ℕ → Option SetFlag → GroupMatchResult → Applied → Result Applied
attach_group env now existing gr s = do
  found ← attach_group_members env gr.member_set_ids (some gr.group_key) s.db
  after_attach now existing gr s found

unfoldable pub apply_group : Env → ℕ → GroupMatchResult → Applied → Option SetFlag → Result Applied
apply_group env now gr s existing =
    if is_rejected_flag existing
    then ok (record s { counts = one_nothing s.counts })
    else (if is_part_candidate gr.flag_type && group_dates_coherent env gr.member_set_ids s.db
        then attach_group env now existing gr s
        else flag_group existing gr s)

unfoldable pub apply_groups : Env → ℕ → List GroupMatchResult → Applied → Result Applied
apply_groups env now [] s = ok s
apply_groups env now (gr ∷ grs) s = do
  existing ← one_or_none (filter (flags_group gr.group_key) s.db.set_flags)
  s' ← apply_group env now gr s existing
  apply_groups env now grs s'

unfoldable pub apply_match_results :
    Env → ℕ → ℕ → List MatchResult → List GroupMatchResult → FamilyDb → Result Applied
apply_match_results env now i pairs groups db = do
  s ←
      apply_pairs env i pairs
        (record { counts = record { n_attached = 0; n_flagged = 0; n_nothing = 0 }; db = db })
  apply_groups env now groups s
