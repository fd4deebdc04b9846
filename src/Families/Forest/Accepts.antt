-- ===== src/Families/Forest/Accepts.antt =====
-- `attach_pair` does what is asked of it wherever its answer is not one of the refusals it documents.
use diggy.Prelude.{
  ℕ, ◌≡◌, refl, false, none, some, Option, arith, ◌==◌, or_else, Option-cases, inl, inr,
}
use diggy.Families.Rows.{DjSet, FamilyDb, Env, ok, get_set}
use diggy.Families.Parents.{
  Parent, parent_of, find_or_create_virtual_parent, materialized, differ, bad_parent, attach_pair,
}
use diggy.Families.Forest.{shapes}
use diggy.Families.Forest.Shapes.{IsFamilyForest, placed_parent, virtual_found}

-- two sets that an admin may attach: two real ones that are not in different families
pub record IsAttachable (a b : ℕ) (db : FamilyDb) (set_a set_b : DjSet) : Type 0 where
  pub found_a : get_set a db ≡ some set_a
  pub found_b : get_set b db ≡ some set_b
  pub two_sets : (a == b) ≡ false
  pub real_a : set_a.is_virtual ≡ false
  pub real_b : set_b.is_virtual ≡ false
  pub agree : (p q : ℕ) → set_a.parent_set_id ≡ some p → set_b.parent_set_id ≡ some q → p ≡ q

agree-differ : (p q : Option ℕ) → ((m n : ℕ) → p ≡ some m → q ≡ some n → m ≡ n) → differ p q ≡ false
agree-differ none q h = refl
agree-differ (some m) none h = refl
agree-differ (some m) (some n) h = ground (arith, h m n refl refl)

good_parent :
    (i : ℕ) (s : DjSet) (db : FamilyDb)
    → IsFamilyForest db
    → get_set i db ≡ some s
    → bad_parent s.parent_set_id db ≡ false
good_parent i s db f e = elim (Option-cases s.parent_set_id) [
  | inl k ↦ rw k refl
  | inr (p, k) ↦
      rw
        (
          k,
          virtual_found p db.sets (f.unique p)
              (placed_parent db.sets (shapes db.sets) i p s f.placed e k),
        )
        refl
]

good_parents :
    (p q : Option ℕ) (db : FamilyDb)
    → bad_parent p db ≡ false
    → bad_parent q db ≡ false
    → bad_parent (or_else p q) db ≡ false
good_parents none q db h k = k
good_parents (some p) q db h k = h

-- In a forest, two real sets that are not in different families can be attached: the call returns.
pub attach_pair-accepts :
    (env : Env) (a b : ℕ) (db : FamilyDb) (set_a set_b : DjSet)
    → IsFamilyForest db
    → IsAttachable a b db set_a set_b
    → (r : Parent) × (attach_pair env a b db ≡ ok r)
unfolding attach_pair find_or_create_virtual_parent
attach_pair-accepts env a b db set_a set_b f h =
    let p = set_a.parent_set_id in
    let q = set_b.parent_set_id in
    let bad =
      good_parents p q db (good_parent a set_a db f h.found_a)
        (good_parent b set_b db f h.found_b) in
    let d = agree-differ p q h.agree in
    (
      materialized env (parent_of env (or_else p q) none none set_a set_b db),
      rw (h.found_a, h.found_b, h.two_sets, h.real_a, h.real_b, d, bad) refl,
    )
