-- ===== src/Families/Parents/SameFlags.antt =====
-- The calls that attach sets leave the flags alone.
use diggy.Prelude.{
  ℕ, ◌≡◌, refl, ◌∙◌, ◌||◌, Option, none, some, List, [], ◌∷◌, ◌==◌, Bool-cases, inl, inr, or_else,
  filter, ltb, length, filter_map, head?,
}
use diggy.Prelude.Text.{Text}
use diggy.Families.Rows.{DjSet, FamilyDb, Env, lookup_error, value_error, attribute_error, get_set}
use diggy.Families.Results.{Ensures, Ensures-bind, Ensures-or_raise, Ensures-raise_if}
use diggy.Families.Metadata.{given}
use diggy.Families.Parents.{
  Parent, adopt, adopt_all, create_parent, parent_of, find_or_create_virtual_parent, materialized,
  differ, bad_parent, attach_pair, attach_members, attach_group_members, is_member, min_date,
  title_of,
}
use diggy.Families.Parents.Touches.{materialize_parent-TouchesOnly}

-- the flags of `db`
abbrev pub SameFlags : FamilyDb → Parent → Type 0
SameFlags db parent = parent.db.set_flags ≡ db.set_flags

adopt_flags : (a b p : ℕ) (db : FamilyDb) → (adopt a b p db).set_flags ≡ db.set_flags
unfolding adopt
adopt_flags a b p db = refl

adopt_all_flags :
    (ms : List ℕ) (p : ℕ) (db : FamilyDb) → (adopt_all ms p db).set_flags ≡ db.set_flags
unfolding adopt_all
adopt_all_flags [] p db = refl
adopt_all_flags (m ∷ ms) p db = adopt_all_flags ms p (adopt m m p db) ∙ adopt_flags m m p db

parent_of_flags :
    (env : Env) (o played_date : Option ℕ) (title : Option Text) (set_a set_b : DjSet)
    (db : FamilyDb)
    → SameFlags db (parent_of env o played_date title set_a set_b db)
unfolding create_parent
parent_of_flags env (some p) played_date title set_a set_b db = adopt_flags set_a.id set_b.id p db
parent_of_flags env none played_date title set_a set_b db = refl

pub find_or_create_flags :
    (env : Env) (a b : ℕ) (played_date : Option ℕ) (title : Option Text) (db : FamilyDb)
    → Ensures (SameFlags db) (find_or_create_virtual_parent env a b played_date title db)
unfolding find_or_create_virtual_parent
find_or_create_flags env a b played_date title db =
    Ensures-or_raise (SameFlags db) (get_set a db) attribute_error _ (λ set_a e.
      Ensures-or_raise (SameFlags db) (get_set b db) attribute_error _ (λ set_b f.
        parent_of_flags env (or_else set_a.parent_set_id set_b.parent_set_id) played_date title
          set_a set_b db))

pub materialized_flags :
    (env : Env) (db : FamilyDb) (parent : Parent)
    → SameFlags db parent
    → SameFlags db (materialized env parent)
materialized_flags env db parent h =
    (materialize_parent-TouchesOnly parent.parent_id env parent.db).flags ∙ h

pub attach_pair_flags :
    (env : Env) (a b : ℕ) (db : FamilyDb) → Ensures (SameFlags db) (attach_pair env a b db)
unfolding attach_pair
attach_pair_flags env a b db =
    let Q = SameFlags db in
    Ensures-or_raise Q (get_set a db) lookup_error _ (λ set_a e.
      Ensures-or_raise Q (get_set b db) lookup_error _ (λ set_b f.
        Ensures-raise_if Q (a == b) value_error _ (λ g.
          Ensures-raise_if Q (set_a.is_virtual || set_b.is_virtual) value_error _ (λ g.
            Ensures-raise_if Q (differ set_a.parent_set_id set_b.parent_set_id) value_error _ (λ g.
              Ensures-raise_if Q (bad_parent (or_else set_a.parent_set_id set_b.parent_set_id) db)
                value_error _
                (λ g.
                  Ensures-bind Q Q (find_or_create_virtual_parent env a b none none db) _
                    (find_or_create_flags env a b none none db) (materialized_flags env db)))))))

abbrev pub GroupFlags : FamilyDb → Option Parent → Type 0
GroupFlags db none = Unit
GroupFlags db (some parent) = SameFlags db parent

attach_members_flags :
    (env : Env) (ids : List ℕ) (played_date : Option ℕ) (title : Option Text) (db : FamilyDb)
    → Ensures (GroupFlags db) (attach_members env ids played_date title db)
attach_members_flags env [] played_date title db = tt
attach_members_flags env (a ∷ []) played_date title db = tt
attach_members_flags env (a ∷ b ∷ rest) played_date title db =
    Ensures-bind (GroupFlags db) (SameFlags db)
      (find_or_create_virtual_parent env a b played_date title db) _
      (find_or_create_flags env a b played_date title db)
      (λ parent h.
        materialized_flags env db (record parent { db = adopt_all rest parent.parent_id parent.db })
          (adopt_all_flags rest parent.parent_id parent.db ∙ h))

pub attach_group_members_flags :
    (env : Env) (ids : List ℕ) (base_title : Option Text) (db : FamilyDb)
    → Ensures (GroupFlags db) (attach_group_members env ids base_title db)
unfolding attach_group_members
attach_group_members_flags env ids base_title db =
    let members = filter (is_member ids) db.sets in
    elim (Bool-cases (ltb (length members) 2)) [
      | inl e ↦ rw e tt
      | inr e ↦ rw e (
          attach_members_flags env ids (min_date (filter_map (λ s. s.played_date) members))
            (or_else (given base_title) (title_of (head? members))) db)
    ]
