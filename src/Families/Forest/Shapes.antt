-- ===== src/Families/Forest/Shapes.antt =====
-- The shape of the families of a database, and what the updates of rows do to it.
use diggy.Prelude.{
  ℕ, ◌≡◌, refl, ◌∙◌, ap, Bool, true, false, some, List, [], ◌∷◌, ◌++◌, arith, ◌≤◌, Bool-cases, inl,
  inr, find?, All, count, update_where, delete_where,
}
use diggy.Families.Rows.{DjSet, FamilyDb, Env, has_id, get_set}
use diggy.Families.Metadata.{
  derive_metadata, children_of, sync_from, is_virtual_set, sync_parent_metadata,
}
use diggy.Families.Parents.{
  tracks_of, merged_tracks, merged_duration, without_tracks, with_tracks, rebuild,
  materialize_parent,
}
use diggy.Families.Forest.{Shape, shape, shapes, is_at, is_virtual_at, is_placed, IsForest}

-- every parent is a virtual set, which is under no parent itself; ids are unique and numbered on
abbrev pub IsFamilyForest : FamilyDb → Type 0
IsFamilyForest db = IsForest (shapes db.sets) db.next_set_id

pub shapes-update_where :
    (q : DjSet → Bool) (f : DjSet → DjSet) (r : Shape → Bool) (g : Shape → Shape) (xs : List DjSet)
    → ((s : DjSet) → r (shape s) ≡ q s)
    → ((s : DjSet) → shape (f s) ≡ g (shape s))
    → shapes (update_where q f xs) ≡ update_where r g (shapes xs)
shapes-update_where q f r g [] h k = refl
shapes-update_where q f r g (s ∷ xs) h k = elim (Bool-cases (q s)) [
  | inl e ↦ rw (h s, e, k s, shapes-update_where q f r g xs h k) refl
  | inr e ↦ rw (h s, e, shapes-update_where q f r g xs h k) refl
]

-- an update that the shape does not show
pub shapes-unchanged :
    (q : DjSet → Bool) (f : DjSet → DjSet) (xs : List DjSet)
    → ((s : DjSet) → shape (f s) ≡ shape s)
    → shapes (update_where q f xs) ≡ shapes xs
shapes-unchanged q f [] k = refl
shapes-unchanged q f (s ∷ xs) k = elim (Bool-cases (q s)) [
  | inl e ↦ rw (e, k s, shapes-unchanged q f xs k) refl
  | inr e ↦ rw (e, shapes-unchanged q f xs k) refl
]

pub shapes-delete_where :
    (q : DjSet → Bool) (r : Shape → Bool) (xs : List DjSet)
    → ((s : DjSet) → r (shape s) ≡ q s)
    → shapes (delete_where q xs) ≡ delete_where r (shapes xs)
shapes-delete_where q r [] h = refl
shapes-delete_where q r (s ∷ xs) h = elim (Bool-cases (q s)) [
  | inl e ↦ rw (h s, e, shapes-delete_where q r xs h) refl
  | inr e ↦ rw (h s, e, shapes-delete_where q r xs h) refl
]

pub shapes-append : (xs ys : List DjSet) → shapes (xs ++ ys) ≡ shapes xs ++ shapes ys
shapes-append [] ys = refl
shapes-append (s ∷ xs) ys = ap (λ zs. shape s ∷ zs) (shapes-append xs ys)

-- a set that is found to be virtual is a virtual one
pub found_virtual :
    (p : ℕ) (xs : List DjSet)
    → is_virtual_set (find? (has_id p) xs) ≡ true
    → is_virtual_at p (shapes xs) ≡ true
found_virtual p [] h = ground arith
found_virtual p (s ∷ xs) h = ground (arith, found_virtual p xs)

none_at :
    (p : ℕ) (xs : List DjSet)
    → count (is_at p) (shapes xs) ≡ 0
    → is_virtual_at p (shapes xs) ≡ false
none_at p [] h = refl
none_at p (s ∷ xs) h = ground (arith, none_at p xs)

-- where ids are unique, a set that is found to be real is no virtual one
pub found_real :
    (p : ℕ) (xs : List DjSet) (s : DjSet)
    → count (is_at p) (shapes xs) ≤ 1
    → find? (has_id p) xs ≡ some s
    → s.is_virtual ≡ false
    → is_virtual_at p (shapes xs) ≡ false
found_real p [] s u h k = refl
found_real p (t ∷ xs) s u h k = ground (arith, found_real p xs s, none_at p xs)

pub virtual_found :
    (p : ℕ) (xs : List DjSet)
    → count (is_at p) (shapes xs) ≤ 1
    → is_virtual_at p (shapes xs) ≡ true
    → is_virtual_set (find? (has_id p) xs) ≡ true
virtual_found p [] u h = ground arith
virtual_found p (t ∷ xs) u h = ground (arith, virtual_found p xs, none_at p xs)

-- in a forest, the parent of a set is a virtual set
pub placed_parent :
    (xs : List DjSet) (ys : List Shape) (i p : ℕ) (s : DjSet)
    → All (λ t. is_placed ys t ≡ true) (shapes xs)
    → find? (has_id i) xs ≡ some s
    → s.parent_set_id ≡ some p
    → is_virtual_at p ys ≡ true
placed_parent [] ys i p s h e k = ground arith
placed_parent (t ∷ xs) ys i p s (h, hs) e k = ground (arith, placed_parent xs ys i p s hs)

derive_metadata-shape :
    (env : Env) (children : List DjSet) (s : DjSet)
    → shape (derive_metadata env children s) ≡ shape s
unfolding derive_metadata
derive_metadata-shape env children s = refl

-- what the rows of a step look like beside those before it
abbrev pub SameShape : FamilyDb → FamilyDb → Type 0
SameShape before after =
    (shapes after.sets ≡ shapes before.sets) × (after.next_set_id ≡ before.next_set_id)

sync_from-SameShape :
    (env : Env) (p : ℕ) (children : List DjSet) (db : FamilyDb)
    → SameShape db (sync_from env p children db)
sync_from-SameShape env p [] db = (refl, refl)
sync_from-SameShape env p (c ∷ cs) db = (
  shapes-unchanged (has_id p) (derive_metadata env (c ∷ cs)) db.sets
      (derive_metadata-shape env (c ∷ cs)),
  refl,
)

sync_parent_metadata-SameShape :
    (env : Env) (p : ℕ) (db : FamilyDb) → SameShape db (sync_parent_metadata env p db)
unfolding sync_parent_metadata
sync_parent_metadata-SameShape env p db = elim (Bool-cases (is_virtual_set (get_set p db))) [
  | inl e ↦ rw e (sync_from-SameShape env p (children_of p db) db)
  | inr e ↦ rw e (refl, refl)
]

rebuild-SameShape :
    (env : Env) (p : ℕ) (children : List DjSet) (db : FamilyDb)
    → SameShape db (rebuild env p children db).db
rebuild-SameShape env p [] db = sync_parent_metadata-SameShape env p db
rebuild-SameShape env p (c ∷ cs) db =
    let merged = merged_tracks env (tracks_of db) (c ∷ cs) in
    let duration = merged_duration (tracks_of db) (c ∷ cs) in
    let synced = sync_parent_metadata-SameShape env p (with_tracks p merged duration db) in
    (
      synced.0
          ∙ shapes-unchanged (has_id p) (λ s. record s { duration_ms = some duration }) db.sets
              (λ s. refl),
      synced.1,
    )

pub materialize_parent-SameShape :
    (env : Env) (p : ℕ) (db : FamilyDb) → SameShape db (materialize_parent env p db).db
unfolding materialize_parent
materialize_parent-SameShape env p db = elim (Bool-cases (is_virtual_set (get_set p db))) [
  | inl e ↦ rw e (rebuild-SameShape env p (children_of p db) (without_tracks p db))
  | inr e ↦ rw e (refl, refl)
]

pub SameShape-IsForest :
    (before after : FamilyDb)
    → SameShape before after
    → IsFamilyForest before
    → IsFamilyForest after
SameShape-IsForest before after h f = rw (h.0, h.1) f
