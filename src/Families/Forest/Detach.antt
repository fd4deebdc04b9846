-- ===== src/Families/Forest/Detach.antt =====
-- `detach_set_from_parent` and the shape of the families.
use diggy.Prelude.{
  ℕ, ◌≤◌, ◌⊎◌, is_some, count, ◌≡◌, refl, ◌∙◌, ap, Bool, true, false, not, ◌&&◌, none, List, [],
  ◌∷◌, arith, ◌==◌, leb, length, filter, Bool-cases, Option-cases, inl, inr, any, delete_where,
}
use diggy.Families.Rows.{DjSet, FamilyDb, Env, has_id, get_set, is_child_of}
use diggy.Families.Results.{Ensures}
use diggy.Families.Parents.{
  orphan, delete_set, delete_virtual, collapse, materialize_parent, detach_set_from_parent,
}
use diggy.Families.Forest.{
  Shape, shape, shapes, is_virtual_at, is_at, has_parent, under, reparent, virtual_at_same,
  orphan-IsForest, delete-IsForest,
}
use diggy.Families.Forest.Shapes.{
  IsFamilyForest, placed_parent, virtual_found, SameShape-IsForest, materialize_parent-SameShape,
  shapes-update_where, shapes-delete_where,
}

pub orphan-IsFamilyForest :
    (q : DjSet → Bool) (r : Shape → Bool) (db : FamilyDb)
    → ((s : DjSet) → r (shape s) ≡ q s)
    → IsFamilyForest db
    → IsFamilyForest (orphan q db)
orphan-IsFamilyForest q r db h f =
    rw
      (shapes-update_where q (λ s. record s { parent_set_id = none }) r (under none) db.sets h
        (λ s. refl))
      (orphan-IsForest r (shapes db.sets) db.next_set_id f)

-- once its children are orphans, a set is no parent
orphaned :
    (p : ℕ) (xs : List Shape) → any (has_parent p) (reparent (has_parent p) (λ s. none) xs) ≡ false
orphaned p [] = refl
orphaned p (s ∷ xs) = ground (arith, orphaned p xs)

no_child :
    (p : ℕ) (xs : List Shape)
    → any (has_parent p) xs ≡ false
    → reparent (has_parent p) (λ s. none) xs ≡ xs
no_child p [] h = refl
no_child p (s ∷ xs) h = ground (arith, no_child p xs)

delete_set-IsForest :
    (p : ℕ) (db : FamilyDb)
    → IsFamilyForest db
    → any (has_parent p) (shapes db.sets) ≡ false
    → IsFamilyForest (delete_set p db)
unfolding delete_set
delete_set-IsForest p db f n =
    rw
      (
        shapes-update_where (is_child_of p) (λ s. record s { parent_set_id = none }) (has_parent p)
            (under none) (delete_where (has_id p) db.sets) (λ s. refl) (λ s. refl),
        shapes-delete_where (has_id p) (is_at p) db.sets (λ s. refl),
      )
      (orphan-IsForest (has_parent p) (delete_where (is_at p) (shapes db.sets)) db.next_set_id
        (delete-IsForest p (shapes db.sets) db.next_set_id f n))

-- the set is under no parent
abbrev pub is_alone : ℕ → List Shape → Bool
is_alone i xs = not (any (λ s. s.id == i && is_some s.parent) xs)

made_alone : (i : ℕ) (xs : List Shape) → is_alone i (reparent (is_at i) (λ s. none) xs) ≡ true
made_alone i [] = refl
made_alone i (s ∷ xs) = ground (arith, made_alone i xs)

alone_reparent :
    (i : ℕ) (q : Shape → Bool) (xs : List Shape)
    → is_alone i xs ≡ true
    → is_alone i (reparent q (λ s. none) xs) ≡ true
alone_reparent i q [] h = refl
alone_reparent i q (s ∷ xs) h = ground (arith, alone_reparent i q xs)

alone_delete :
    (i : ℕ) (q : Shape → Bool) (xs : List Shape)
    → is_alone i xs ≡ true
    → is_alone i (delete_where q xs) ≡ true
alone_delete i q [] h = refl
alone_delete i q (s ∷ xs) h = ground (arith, alone_delete i q xs)

gone :
    (p : ℕ) (q : Shape → Bool) (xs : List Shape)
    → any (is_at p) (reparent q (λ s. none) (delete_where (is_at p) xs)) ≡ false
gone p q [] = refl
gone p q (s ∷ xs) = ground (arith, gone p q xs)

count_children :
    (p : ℕ) (xs : List DjSet)
    → length (filter (is_child_of p) xs) ≡ count (has_parent p) (shapes xs)
count_children p [] = refl
count_children p (s ∷ xs) = ground (arith, count_children p xs)

-- what is left of the family of `p` once the set `i` has left it
pub record IsDetached (i p : ℕ) (db : FamilyDb) : Type 0 where
  pub forest : IsFamilyForest db
  pub alone : is_alone i (shapes db.sets) ≡ true
  pub family :
      (2 ≤ count (has_parent p) (shapes db.sets)) ⊎ (any (is_at p) (shapes db.sets) ≡ false)

shapes-orphan :
    (p : ℕ) (db : FamilyDb)
    → shapes (orphan (is_child_of p) db).sets ≡ reparent (has_parent p) (λ s. none) (shapes db.sets)
shapes-orphan p db =
    shapes-update_where (is_child_of p) (λ s. record s { parent_set_id = none }) (has_parent p)
      (under none) db.sets (λ s. refl) (λ s. refl)

shapes-delete_set :
    (p : ℕ) (db : FamilyDb)
    → shapes (delete_set p db).sets
      ≡ reparent (has_parent p) (λ s. none) (delete_where (is_at p) (shapes db.sets))
unfolding delete_set
shapes-delete_set p db =
    shapes-update_where (is_child_of p) (λ s. record s { parent_set_id = none }) (has_parent p)
      (under none) (delete_where (has_id p) db.sets) (λ s. refl) (λ s. refl)
    ∙ ap (reparent (has_parent p) (λ s. none))
        (shapes-delete_where (has_id p) (is_at p) db.sets (λ s. refl))

delete_set-IsDetached :
    (i p : ℕ) (db : FamilyDb)
    → IsFamilyForest db
    → is_alone i (shapes db.sets) ≡ true
    → any (has_parent p) (shapes db.sets) ≡ false
    → IsDetached i p (delete_set p db)
delete_set-IsDetached i p db f a n =
    let xs = shapes db.sets in
    record {
      forest = delete_set-IsForest p db f n;
      alone = rw (shapes-delete_set p db) (
          alone_reparent i (has_parent p) (delete_where (is_at p) xs)
            (alone_delete i (is_at p) xs a));
      family = inr (rw (shapes-delete_set p db) (gone p (has_parent p) xs));
    }

delete_virtual-IsDetached :
    (i p : ℕ) (db : FamilyDb)
    → IsFamilyForest db
    → is_alone i (shapes db.sets) ≡ true
    → is_virtual_at p (shapes db.sets) ≡ true
    → any (has_parent p) (shapes db.sets) ≡ false
    → IsDetached i p (delete_virtual p db)
delete_virtual-IsDetached i p db f a v n =
    rw (virtual_found p db.sets (f.unique p) v) (delete_set-IsDetached i p db f a n)

collapse-IsDetached :
    (env : Env) (i p : ℕ) (db : FamilyDb)
    → IsFamilyForest db
    → is_alone i (shapes db.sets) ≡ true
    → is_virtual_at p (shapes db.sets) ≡ true
    → IsDetached i p (collapse env p db)
collapse-IsDetached env i p db f a v =
    let xs = shapes db.sets in
    let n = length (filter (is_child_of p) db.sets) in
    let same = materialize_parent-SameShape env p db in
    elim (Bool-cases (leb n 1)) [
      | inl e ↦ rw e (
          delete_virtual-IsDetached i p (orphan (is_child_of p) db)
            (orphan-IsFamilyForest (is_child_of p) (has_parent p) db (λ s. refl) f)
            (rw (shapes-orphan p db) (alone_reparent i (has_parent p) xs a))
            (rw (shapes-orphan p db) (virtual_at_same (has_parent p) (λ s. none) xs p ∙ v))
            (rw (shapes-orphan p db) (orphaned p xs)))
      | inr e ↦ rw e (record {
        forest = SameShape-IsForest db (materialize_parent env p db).db same f;
        alone = rw same.0 a;
        family = inl (rw same.0 (ground (arith, e, count_children p db.sets)));
      })
    ]

-- In a forest, a set that is detached is under no parent afterwards, and the families stay a forest
-- in which the parent it had is either gone or has two children left at least.
pub detach_set_from_parent-IsDetached :
    (env : Env) (i : ℕ) (db : FamilyDb)
    → IsFamilyForest db
    → Ensures (λ r. IsDetached i r.parent_id r.db) (detach_set_from_parent env i db)
unfolding detach_set_from_parent
detach_set_from_parent-IsDetached env i db f = elim (Option-cases (get_set i db)) [
  | inl e ↦ rw e tt
  | inr (dj_set, e) ↦ elim (Option-cases dj_set.parent_set_id) [
    | inl k ↦ rw (e, k) tt
    | inr (p, k) ↦
        let xs = shapes db.sets in
        let shape_of =
          shapes-update_where (has_id i) (λ s. record s { parent_set_id = none }) (is_at i)
            (under none) db.sets (λ s. refl) (λ s. refl) in
        rw (e, k)
          (collapse-IsDetached env i p (orphan (has_id i) db)
            (orphan-IsFamilyForest (has_id i) (is_at i) db (λ s. refl) f)
            (rw shape_of (made_alone i xs))
            (rw shape_of (
              virtual_at_same (is_at i) (λ s. none) xs p
              ∙ placed_parent db.sets xs i p dj_set f.placed e k)))
  ]
]
