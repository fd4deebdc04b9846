-- ===== src/Families/Parents/Safe.antt =====
-- The calls that attach and detach sets keep the real ones.
use diggy.Prelude.{
  ℕ, ◌≡◌, refl, ◌∙◌, ap, Bool, true, false, ◌||◌, none, some, Option, List, [], ◌∷◌, arith, ◌==◌,
  ltb, leb, Bool-cases, Option-cases, inl, inr, find?, filter, filter-delete_where_disjoint,
  find?-delete_where_disjoint, find?-any, any-delete_where_self, or_else, delete_where, length,
  filter_map, head?,
}
use diggy.Prelude.Text.{Text}
use diggy.Families.Rows.{
  DjSet, FamilyDb, Env, Result, ok, err, Error, ◌>>=◌, ◌>>◌, raise_if, value_error, has_id, get_set,
  is_child_of,
}
use diggy.Families.Metadata.{is_virtual_set, given}
use diggy.Families.Parents.{
  Parent, adopt_all, find_or_create_virtual_parent, materialize_parent, materialized, attach_pair,
  delete_set, delete_virtual, orphan, collapse, detach_set_from_parent, attach_members,
  attach_group_members, differ, bad_parent, min_date, title_of, is_member,
}
use diggy.Families.Parents.Real.{
  real_row, is_real, of_real, KeepsReal, KeepsReal-refl, KeepsReal-trans, not_real, real_of_row,
  materialize_parent-KeepsReal, adopt_all-KeepsReal, real_row-update_where, orphan-KeepsReal, Keeps,
  find_or_create-Keeps,
}

pub materialized-Keeps :
    (env : Env) (before : FamilyDb) (parent : Parent)
    → KeepsReal before parent.db
    → KeepsReal before (materialized env parent).db
materialized-Keeps env before parent h =
    KeepsReal-trans before parent.db (materialize_parent env parent.parent_id parent.db).db h
      (materialize_parent-KeepsReal env parent.parent_id parent.db)

-- a bind whose rest keeps what its first step keeps
bind-Keeps :
    (before : FamilyDb) (m : Result Parent) (f : Parent → Parent)
    → Keeps (λ r. r.db) before m
    → ((parent : Parent) → KeepsReal before parent.db → KeepsReal before (f parent).db)
    → Keeps (λ r. r.db) before (m >>= λ parent. ok (f parent))
bind-Keeps before (ok parent) f h k = k parent h
bind-Keeps before (err e) f h k = tt

raise_if-Keeps :
    (before : FamilyDb) (b : Bool) (e : Error) (m : Result Parent)
    → Keeps (λ r. r.db) before m
    → Keeps (λ r. r.db) before (raise_if b e >> m)
raise_if-Keeps before true e m h = tt
raise_if-Keeps before false e m h = h

-- An attached pair leaves every real set its row, but for the parent, its tracks and its artists.
pub attach_pair-KeepsReal :
    (env : Env) (a b : ℕ) (db : FamilyDb) → Keeps (λ r. r.db) db (attach_pair env a b db)
unfolding attach_pair
attach_pair-KeepsReal env a b db = elim (Option-cases (get_set a db)) [
  | inl e ↦ rw e tt
  | inr (set_a, e) ↦ elim (Option-cases (get_set b db)) [
    | inl f ↦ rw (e, f) tt
    | inr (set_b, f) ↦
        rw (e, f)
          (raise_if-Keeps db (a == b) value_error _ (
            raise_if-Keeps db (set_a.is_virtual || set_b.is_virtual) value_error _ (
              raise_if-Keeps db (differ set_a.parent_set_id set_b.parent_set_id) value_error _ (
                raise_if-Keeps db (bad_parent (or_else set_a.parent_set_id set_b.parent_set_id) db)
                  value_error _
                  (bind-Keeps db (find_or_create_virtual_parent env a b none none db)
                    (materialized env) (find_or_create-Keeps env a b none none db)
                    (materialized-Keeps env db))))))
  ]
]

deleted_row :
    (p : ℕ) (sets : List DjSet)
    → is_virtual_set (find? (has_id p) sets) ≡ true
    → (i : ℕ)
    → real_row (find? (has_id i) (delete_where (has_id p) sets)) ≡ real_row (find? (has_id i) sets)
deleted_row p sets v i = elim (Bool-cases (i == p)) [
  | inl e ↦
      let q : i ≡ p = ground arith in
      rw
        (
          q,
          (not_real (find? (has_id p) sets) v).0,
          find?-any (has_id p) (delete_where (has_id p) sets)
              (any-delete_where_self (has_id p) sets),
        )
        refl
  | inr e ↦
      ap real_row (find?-delete_where_disjoint (has_id p) (has_id i) sets (λ x h. ground arith))
]

delete_set-row :
    (p : ℕ) (db : FamilyDb)
    → is_virtual_set (get_set p db) ≡ true
    → (i : ℕ) → real_row (get_set i (delete_set p db)) ≡ real_row (get_set i db)
unfolding delete_set
delete_set-row p db v i =
    real_row-update_where (is_child_of p) (λ s. none) (delete_where (has_id p) db.sets) i
    ∙ deleted_row p db.sets v i

-- the rows of table `q`, which the cascade of `p` has passed over
of_real-delete {ℓ} :
    {A : Type ℓ} (set_of : A → ℕ) (p : ℕ) (before after : Option DjSet) (i : ℕ) (xs : List A)
    → real_row after ≡ real_row before
    → (i ≡ p → is_real before ≡ false)
    → of_real (is_real after) (filter (λ x. set_of x == i) (delete_where (λ x. set_of x == p) xs))
      ≡ of_real (is_real before) (filter (λ x. set_of x == i) xs)
of_real-delete set_of p before after i xs h k = elim (Bool-cases (i == p)) [
  | inl e ↦ rw (real_of_row after before h, k (ground arith)) refl
  | inr e ↦
      rw
        (
          real_of_row after before h,
          filter-delete_where_disjoint (λ x. set_of x == p) (λ x. set_of x == i) xs
              (λ x g. ground arith),
        )
        refl
]

delete_set-KeepsReal :
    (p : ℕ) (db : FamilyDb) → is_virtual_set (get_set p db) ≡ true → KeepsReal db (delete_set p db)
unfolding delete_set
delete_set-KeepsReal p db v =
    let gone : (i : ℕ) → i ≡ p → is_real (get_set i db) ≡ false =
      λ i e. rw e (not_real (get_set p db) v).1 in
    record {
      rows = delete_set-row p db v;
      tracks = λ i.
          of_real-delete (λ t. t.set_id) p (get_set i db) (get_set i (delete_set p db)) i
            db.set_tracks (delete_set-row p db v i) (gone i);
      artists = λ i.
          of_real-delete (λ l. l.set_id) p (get_set i db) (get_set i (delete_set p db)) i
            db.set_artists (delete_set-row p db v i) (gone i);
    }

delete_virtual-KeepsReal : (p : ℕ) (db : FamilyDb) → KeepsReal db (delete_virtual p db)
delete_virtual-KeepsReal p db = elim (Bool-cases (is_virtual_set (get_set p db))) [
  | inl e ↦ rw e (delete_set-KeepsReal p db e)
  | inr e ↦ rw e (KeepsReal-refl db)
]

collapse-KeepsReal : (env : Env) (p : ℕ) (db : FamilyDb) → KeepsReal db (collapse env p db)
collapse-KeepsReal env p db = elim (Bool-cases (leb (length (filter (is_child_of p) db.sets)) 1)) [
  | inl e ↦ rw e (
      KeepsReal-trans db (orphan (is_child_of p) db) (delete_virtual p (orphan (is_child_of p) db))
        (orphan-KeepsReal (is_child_of p) db)
        (delete_virtual-KeepsReal p (orphan (is_child_of p) db)))
  | inr e ↦ rw e (materialize_parent-KeepsReal env p db)
]

-- Detaching a set, and the collapse of a parent that is left with one child or none, leaves every
-- real set its row, but for the parent, its tracks and its artists.
pub detach_set_from_parent-KeepsReal :
    (env : Env) (i : ℕ) (db : FamilyDb) → Keeps (λ r. r.db) db (detach_set_from_parent env i db)
unfolding detach_set_from_parent
detach_set_from_parent-KeepsReal env i db = elim (Option-cases (get_set i db)) [
  | inl e ↦ rw e tt
  | inr (dj_set, e) ↦ elim (Option-cases dj_set.parent_set_id) [
    | inl f ↦ rw (e, f) tt
    | inr (p, f) ↦
        rw (e, f)
          (KeepsReal-trans db (orphan (has_id i) db) (collapse env p (orphan (has_id i) db))
            (orphan-KeepsReal (has_id i) db) (collapse-KeepsReal env p (orphan (has_id i) db)))
  ]
]

abbrev pub group_db : FamilyDb → Option Parent → FamilyDb
group_db before none = before
group_db before (some parent) = parent.db

members-bind :
    (env : Env) (rest : List ℕ) (before : FamilyDb) (m : Result Parent)
    → Keeps (λ r. r.db) before m
    → Keeps (group_db before) before (
        m >>= λ parent. ok (
          some
            (materialized env (record parent { db = adopt_all rest parent.parent_id parent.db }))))
members-bind env rest before (ok parent) h =
    materialized-Keeps env before (record parent { db = adopt_all rest parent.parent_id parent.db })
      (KeepsReal-trans before parent.db (adopt_all rest parent.parent_id parent.db) h
        (adopt_all-KeepsReal rest parent.parent_id parent.db))
members-bind env rest before (err e) h = tt

attach_members-Keeps :
    (env : Env) (ids : List ℕ) (played_date : Option ℕ) (title : Option Text) (db : FamilyDb)
    → Keeps (group_db db) db (attach_members env ids played_date title db)
attach_members-Keeps env [] played_date title db = tt
attach_members-Keeps env (a ∷ []) played_date title db = tt
attach_members-Keeps env (a ∷ b ∷ rest) played_date title db =
    members-bind env rest db (find_or_create_virtual_parent env a b played_date title db)
      (find_or_create-Keeps env a b played_date title db)

pub attach_group_members-Keeps :
    (env : Env) (ids : List ℕ) (base_title : Option Text) (db : FamilyDb)
    → Keeps (group_db db) db (attach_group_members env ids base_title db)
unfolding attach_group_members
attach_group_members-Keeps env ids base_title db =
    let members = filter (is_member ids) db.sets in
    elim (Bool-cases (ltb (length members) 2)) [
      | inl e ↦ rw e (KeepsReal-refl db)
      | inr e ↦ rw e (
          attach_members-Keeps env ids (min_date (filter_map (λ s. s.played_date) members))
            (or_else (given base_title) (title_of (head? members))) db)
    ]
