-- ===== src/Families/Flags/Once.antt =====
-- A matching flags no pair of sets and no group twice.
use diggy.Prelude.{
  ℕ, ◌≤◌, ◌≡◌, refl, ap, min, max, Bool, false, ◌&&◌, ◌∙◌, ltb, any, any-append, any-update_where,
  Option, none, some, List, [], ◌∷◌, ◌++◌, arith, Bool-cases, inl, inr, or_else, filter, count,
  count-append, count-update_where, length, length-filter, subst, sym,
}
use diggy.Prelude.Text.{Text, text_eq, text_eq_iff}
use diggy.Sets.Verdict.{MatchVerdict, auto_attach, flag, nothing}
use diggy.Families.Rows.{SetFlag, FamilyDb, Env, get_set}
use diggy.Families.Results.{Ensures, Ensures-bind}
use diggy.Families.Parents.{Parent, find_or_create_virtual_parent, attach_group_members}
use diggy.Families.Parents.SameFlags.{
  SameFlags, find_or_create_flags, materialized_flags, GroupFlags, attach_group_members_flags,
}
use diggy.Families.Flags.{
  has_flag_id, MatchResult, GroupMatchResult, Applied, one_or_none, flags_pair, flags_two,
  flags_group, is_pending, pair_flag, group_flag, flag_if_new, played_of, apply_verdict,
  apply_pairs, attached_group, extended_group, write_flag, least, flag_group, after_attach,
  apply_group, apply_groups, apply_match_results, is_rejected_flag, is_part_candidate,
  group_dates_coherent,
}

-- a pair whose greater id is named first
abbrev pub is_swapped : SetFlag → Bool
is_swapped f = elim f.set_id_b [ none ↦ false | some b ↦ ltb b f.set_id_a ]

-- Every flag of a pair names the lesser id first; there is at most one flag for two sets, whichever
-- is named first, and one for a group key.
pub record FlagsOnce (flags : List SetFlag) : Type 0 where
  pub ordered : any is_swapped flags ≡ false
  pub pairs : (a b : ℕ) → count (flags_two a b) flags ≤ 1
  pub groups : (key : Text) → count (flags_group key) flags ≤ 1

abbrev pub Once : Applied → Type 0
Once s = FlagsOnce s.db.set_flags

-- No row is found exactly where none is counted.
none_found : (q : SetFlag → Bool) (flags : List SetFlag) → filter q flags ≡ [] → count q flags ≡ 0
none_found q flags h = omega (arith, length-filter q flags, ap length h)

-- Where the flags are ordered, the search by the ordered pair finds those of both orders.
count-flags_two :
    (a b : ℕ) (flags : List SetFlag)
    → a ≤ b
    → any is_swapped flags ≡ false
    → (count (flags_two a b) flags ≡ count (flags_pair a b) flags)
      × (count (flags_two b a) flags ≡ count (flags_pair a b) flags)
count-flags_two a b [] h o = (refl, refl)
count-flags_two a b (f ∷ flags) h o =
    let k = count-flags_two a b flags h (ground arith) in (ground (arith, k.0), ground (arith, k.1))

-- a new flag of the sets `a` and `b`, which had none
pub new_pair-Once :
    (a b : ℕ) (f : SetFlag) (flags : List SetFlag)
    → a ≤ b
    → f.set_id_a ≡ a
    → f.set_id_b ≡ some b
    → f.group_key ≡ none
    → count (flags_pair a b) flags ≡ 0
    → FlagsOnce flags
    → FlagsOnce (flags ++ f ∷ [])
new_pair-Once a b f flags le ea eb eg h o =
    let both = count-flags_two a b flags le o.ordered in
    let one : count (flags_two a b) flags ≡ 0 = both.0 ∙ h in
    let two : count (flags_two b a) flags ≡ 0 = both.1 ∙ h in
    record {
      ordered = ground (arith, any-append is_swapped flags (f ∷ []), o.ordered, ea, eb);
      pairs = λ c d.
          ground
            (arith, count-append (flags_two c d) flags (f ∷ []), o.pairs c d, one, two, ea, eb);
      groups =
          λ key. ground (arith, count-append (flags_group key) flags (f ∷ []), o.groups key, eg);
    }

min-le-max : (a b : ℕ) → min a b ≤ max a b
min-le-max a b = omega arith

pair_flag-Once :
    (id i j : ℕ) (r : MatchResult) (flags : List SetFlag)
    → filter (flags_pair (min i j) (max i j)) flags ≡ []
    → FlagsOnce flags
    → FlagsOnce (flags ++ pair_flag id (min i j) (max i j) r ∷ [])
pair_flag-Once id i j r flags h =
    new_pair-Once (min i j) (max i j) (pair_flag id (min i j) (max i j) r) flags (min-le-max i j)
      refl refl refl (none_found (flags_pair (min i j) (max i j)) flags h)

group_flag-Once :
    (id a : ℕ) (gr : GroupMatchResult) (flags : List SetFlag)
    → filter (flags_group gr.group_key) flags ≡ []
    → FlagsOnce flags
    → FlagsOnce (flags ++ group_flag id a gr ∷ [])
group_flag-Once id a gr flags h o = record {
  ordered = ground (arith, any-append is_swapped flags (group_flag id a gr ∷ []), o.ordered);
  pairs = λ c d.
      ground (arith, count-append (flags_two c d) flags (group_flag id a gr ∷ []), o.pairs c d);
  groups = λ key. elim (Bool-cases (text_eq gr.group_key key)) [
    | inl e ↦
        let same : gr.group_key ≡ key = (text_eq_iff gr.group_key key).0 e in
        let free : count (flags_group key) flags ≡ 0 =
          subst (λ k. count (flags_group k) flags ≡ 0) same
            (none_found (flags_group gr.group_key) flags h) in
        ground (arith, count-append (flags_group key) flags (group_flag id a gr ∷ []), free)
    | inr e ↦
        ground (arith, count-append (flags_group key) flags (group_flag id a gr ∷ []), o.groups key)
  ];
}

-- A write that leaves the sets and the group of a flag alone.
abbrev SameSubject : (SetFlag → SetFlag) → Type 0
SameSubject f =
    (g : SetFlag)
    → ((f g).set_id_a ≡ g.set_id_a)
      × ((f g).set_id_b ≡ g.set_id_b)
      × ((f g).group_key ≡ g.group_key)

write_flag-Once :
    (o : Option SetFlag) (f : SetFlag → SetFlag) (db : FamilyDb)
    → SameSubject f
    → FlagsOnce db.set_flags
    → FlagsOnce (write_flag o f db).set_flags
write_flag-Once none f db same h = h
write_flag-Once (some old) f db same h = record {
  ordered =
      rw
        (any-update_where (has_flag_id old.id) is_swapped f db.set_flags
          (λ g. rw ((same g).0, (same g).1) refl))
        h.ordered;
  pairs = λ a b.
      rw
        (count-update_where (has_flag_id old.id) (flags_two a b) f db.set_flags
          (λ g. rw ((same g).0, (same g).1) refl))
        (h.pairs a b);
  groups = λ key.
      rw
        (count-update_where (has_flag_id old.id) (flags_group key) f db.set_flags
          (λ g. rw (same g).2 refl))
        (h.groups key);
}

attached_group-SameSubject : (now : ℕ) (gr : GroupMatchResult) → SameSubject (attached_group now gr)
unfolding attached_group
attached_group-SameSubject now gr g = elim (Bool-cases (is_pending g)) [
  | inl e ↦ rw e (refl, refl, refl)
  | inr e ↦ rw e (refl, refl, refl)
]

extended_group-SameSubject : (gr : GroupMatchResult) → SameSubject (extended_group gr)
unfolding extended_group
extended_group-SameSubject gr g = (refl, refl, refl)

-- what `one_or_none` tells of the rows
abbrev Found : List SetFlag → Option SetFlag → Type 0
Found rows none = rows ≡ []
Found rows (some f) = rows ≡ f ∷ []

one_or_none-Found : (rows : List SetFlag) → Ensures (Found rows) (one_or_none rows)
one_or_none-Found [] = refl
one_or_none-Found (f ∷ []) = refl
one_or_none-Found (f ∷ g ∷ fs) = tt

flag_if_new-Once :
    (o : Option SetFlag) (i j : ℕ) (r : MatchResult) (s : Applied)
    → Found (filter (flags_pair (min i j) (max i j)) s.db.set_flags) o
    → Once s
    → Once (flag_if_new o (pair_flag s.db.next_flag_id (min i j) (max i j) r) s)
flag_if_new-Once none i j r s e h = pair_flag-Once s.db.next_flag_id i j r s.db.set_flags e h
flag_if_new-Once (some old) i j r s e h = h

any_least : (ids : List ℕ) → Ensures (λ a. Unit) (least ids)
any_least [] = tt
any_least (i ∷ is) = tt

flag_group-Once :
    (o : Option SetFlag) (gr : GroupMatchResult) (s : Applied)
    → Found (filter (flags_group gr.group_key) s.db.set_flags) o
    → Once s
    → Ensures Once (flag_group o gr s)
flag_group-Once none gr s e h =
    Ensures-bind Once (λ a. Unit) (least gr.member_set_ids) _ (any_least gr.member_set_ids)
      (λ a k. group_flag-Once s.db.next_flag_id a gr s.db.set_flags e h)
flag_group-Once (some old) gr s e h =
    write_flag-Once (some old) (extended_group gr) s.db (extended_group-SameSubject gr) h

apply_verdict-Once :
    (env : Env) (i : ℕ) (v : MatchVerdict) (r : MatchResult) (s : Applied)
    → Once s
    → Ensures Once (apply_verdict env i v r s)
apply_verdict-Once env i auto_attach r s h =
    let date = or_else (played_of (get_set i s.db)) (played_of (get_set r.candidate_id s.db)) in
    Ensures-bind Once (SameFlags s.db)
      (find_or_create_virtual_parent env i r.candidate_id date none s.db) _
      (find_or_create_flags env i r.candidate_id date none s.db)
      (λ parent e. subst FlagsOnce (sym (materialized_flags env s.db parent e)) h)
apply_verdict-Once env i flag r s h =
    let a = min i r.candidate_id in
    let b = max i r.candidate_id in
    let rows = filter (flags_pair a b) s.db.set_flags in
    Ensures-bind Once (Found rows) (one_or_none rows) _ (one_or_none-Found rows)
      (λ o e. flag_if_new-Once o i r.candidate_id r s e h)
apply_verdict-Once env i nothing r s h = h

apply_pairs-Once :
    (env : Env) (i : ℕ) (rs : List MatchResult) (s : Applied)
    → Once s
    → Ensures Once (apply_pairs env i rs s)
unfolding apply_pairs
apply_pairs-Once env i [] s h = h
apply_pairs-Once env i (r ∷ rs) s h =
    Ensures-bind Once Once (apply_verdict env i r.verdict r s) (apply_pairs env i rs)
      (apply_verdict-Once env i r.verdict r s h) (apply_pairs-Once env i rs)

after_attach-Once :
    (now : ℕ) (o : Option SetFlag) (gr : GroupMatchResult) (s : Applied) (found : Option Parent)
    → Found (filter (flags_group gr.group_key) s.db.set_flags) o
    → Once s
    → GroupFlags s.db found
    → Ensures Once (after_attach now o gr s found)
after_attach-Once now o gr s none e h g = flag_group-Once o gr s e h
after_attach-Once now o gr s (some parent) e h g =
    write_flag-Once o (attached_group now gr) parent.db (attached_group-SameSubject now gr)
      (subst FlagsOnce (sym g) h)

apply_group-Once :
    (env : Env) (now : ℕ) (gr : GroupMatchResult) (s : Applied) (o : Option SetFlag)
    → Found (filter (flags_group gr.group_key) s.db.set_flags) o
    → Once s
    → Ensures Once (apply_group env now gr s o)
unfolding apply_group
apply_group-Once env now gr s o e h = elim (Bool-cases (is_rejected_flag o)) [
  | inl f ↦ rw f h
  | inr f ↦
      elim (Bool-cases
        (is_part_candidate gr.flag_type && group_dates_coherent env gr.member_set_ids s.db)) [
          | inl g ↦
              rw (f, g)
                (Ensures-bind Once (GroupFlags s.db)
                  (attach_group_members env gr.member_set_ids (some gr.group_key) s.db) _
                  (attach_group_members_flags env gr.member_set_ids (some gr.group_key) s.db)
                  (λ found k. after_attach-Once now o gr s found e h k))
          | inr g ↦ rw (f, g) (flag_group-Once o gr s e h)
        ]
]

apply_groups-Once :
    (env : Env) (now : ℕ) (grs : List GroupMatchResult) (s : Applied)
    → Once s
    → Ensures Once (apply_groups env now grs s)
unfolding apply_groups
apply_groups-Once env now [] s h = h
apply_groups-Once env now (gr ∷ grs) s h =
    let rows = filter (flags_group gr.group_key) s.db.set_flags in
    Ensures-bind Once (Found rows) (one_or_none rows) _ (one_or_none-Found rows) (λ o e.
      Ensures-bind Once Once (apply_group env now gr s o) (apply_groups env now grs)
        (apply_group-Once env now gr s o e h) (apply_groups-Once env now grs))

-- Where every flag of a pair names the lesser id first, and no two sets, in either order, and no
-- group had two flags, and the matching does not raise, the same holds after it, however many
-- results name the same two sets or the same group.
pub apply_match_results-FlagsOnce :
    (env : Env) (now i : ℕ) (pairs : List MatchResult) (groups : List GroupMatchResult)
    (db : FamilyDb)
    → FlagsOnce db.set_flags
    → Ensures Once (apply_match_results env now i pairs groups db)
unfolding apply_match_results
apply_match_results-FlagsOnce env now i pairs groups db h =
    Ensures-bind Once Once (apply_pairs env i pairs _) (apply_groups env now groups)
      (apply_pairs-Once env i pairs _ h) (apply_groups-Once env now groups)
