-- ===== src/Twins/Reconcile/Families.antt =====
-- The families of a set and of its candidates, as `_families_with_decision` looks them up.
use diggy.Prelude.{
  ℕ, ◌≤◌, ◌≡◌, refl, ◌∙◌, sym, ap, subst, Bool, true, false, Option, none, some, List, [], ◌∷◌,
  arith, ◌==◌, if◌then◌else◌, any, find?, filter_map, count, min, max, All, All-at, Bool-cases,
  Option-cases, inl, inr,
}
use mathlib.Core.List.{Memᴰ}
use diggy.Prelude.Distinct.{has}
use diggy.Families.Rows.{DjSet, SetFlag, FamilyDb, has_id, get_set}
use diggy.Families.Flags.{flags_pair}
use diggy.Families.Forest.{shapes, is_at, is_virtual_at}
use diggy.Families.Forest.Shapes.{IsFamilyForest, placed_parent, found_real}
use diggy.Twins.Rules.{TwinEnv}
use diggy.Twins.Choice.{Evaluated, family}
use diggy.Twins.Search.Rows.{IsEvaluated}
use diggy.Twins.Reconcile.{
  parents_of, is_sibling, family_of, second_family, other_family, families_with_decision,
}

no_sibling :
    (parents : List ℕ) (i : ℕ) (xs : List DjSet)
    → count (is_at i) (shapes xs) ≡ 0
    → find? (is_sibling parents i) xs ≡ none
no_sibling parents i [] h = refl
no_sibling parents i (x ∷ xs) h = ground (arith, no_sibling parents i xs)

-- where ids are unique, only the row of the id can be the sibling
sibling_row :
    (parents : List ℕ) (i : ℕ) (xs : List DjSet) (r : DjSet)
    → count (is_at i) (shapes xs) ≤ 1
    → find? (has_id i) xs ≡ some r
    → find? (is_sibling parents i) xs ≡ (if is_sibling parents i r then some r else none)
sibling_row parents i [] r u h = ground arith
sibling_row parents i (x ∷ xs) r u h = elim (Bool-cases (has_id i x)) [
  | inl e ↦
      let same : x ≡ r = ground (arith, e) in
      let rest = no_sibling parents i xs (ground (arith, e, u)) in
      subst
        (λ y.
          find? (is_sibling parents i) (x ∷ xs) ≡ (if is_sibling parents i y then some y else none))
        same (ground (arith, rest))
  | inr e ↦ ground (arith, e, sibling_row parents i xs r (ground (arith, e, u)) (ground (arith, e)))
]

-- each row is the one that its id finds
abbrev AreRows : FamilyDb → List DjSet → Type 0
AreRows db rows = All (λ r. get_set r.id db ≡ some r) rows

row_in_rows :
    (db : FamilyDb) (rows : List DjSet) (r : DjSet)
    → AreRows db rows
    → get_set r.id db ≡ some r
    → Memᴰ r rows
    → find? (has_id r.id) rows ≡ some r
row_in_rows db [] r h e m = elim m [ ]
row_in_rows db (x ∷ xs) r (h, hs) e (Memᴰ.head p) =
    subst (λ y. find? (has_id r.id) (y ∷ xs) ≡ some r) p (ground arith)
row_in_rows db (x ∷ xs) r (h, hs) e (Memᴰ.tail m) = elim (Bool-cases (has_id r.id x)) [
  | inl k ↦ let q : x.id ≡ r.id = ground arith in rw k (sym h ∙ ap (λ i. get_set i db) q ∙ e)
  | inr k ↦ rw k (row_in_rows db xs r hs e m)
]

parent_in_parents :
    (rows : List DjSet) (r : DjSet) (p : ℕ)
    → Memᴰ r rows
    → r.parent_set_id ≡ some p
    → has ◌==◌ p (parents_of rows) ≡ true
parent_in_parents [] r p m e = elim m [ ]
parent_in_parents (x ∷ xs) r p (Memᴰ.head q) e =
    let k : x.parent_set_id ≡ some p = ap (λ y. y.parent_set_id) (sym q) ∙ e in ground (arith, k)
parent_in_parents (x ∷ xs) r p (Memᴰ.tail m) e = ground (arith, parent_in_parents xs r p m e)

-- A row among those looked at is in its own family.
pub family_of_row :
    (rows : List DjSet) (db : FamilyDb) (r : DjSet)
    → ((i : ℕ) → count (is_at i) (shapes db.sets) ≤ 1)
    → AreRows db rows
    → Memᴰ r rows
    → family_of rows db r.id ≡ some (family r)
unfolding family_of
family_of_row rows db r u h m =
    let e = All-at (λ s. get_set s.id db ≡ some s) rows h r m in
    rw (sibling_row (parents_of rows) r.id db.sets r (u r.id) e, row_in_rows db rows r h e m)
      (elim (Option-cases r.parent_set_id) [
        | inl n ↦ ground (arith, n)
        | inr (p, k) ↦ ground (arith, k, parent_in_parents rows r p m k)
      ])

-- In a forest, a set and a candidate that has another parent are of two families.
pub families_apart :
    (env : TwinEnv) (row : DjSet) (db : FamilyDb) (e : Evaluated)
    → IsFamilyForest db
    → get_set row.id db ≡ some row
    → row.is_virtual ≡ false
    → IsEvaluated env row db e
    → (family row == family e.row) ≡ false
families_apart env row db e f found real h =
    let r = e.row in
    let xs = shapes db.sets in
    let other : r.is_virtual ≡ false = ground (arith, h.row_of.candidate) in
    let row_real = found_real row.id db.sets row (f.unique row.id) found real in
    let other_real = found_real r.id db.sets r (f.unique r.id) h.row_of.found other in
    elim (Option-cases row.parent_set_id) [
      | inl n ↦ elim (Option-cases r.parent_set_id) [
        | inl m ↦ ground (arith, n, m, h.row_of.candidate)
        | inr (q, m) ↦
            let v = placed_parent db.sets xs r.id q r f.placed h.row_of.found m in
            let apart : row.id ≡ q → is_virtual_at q xs ≡ false =
              λ k. subst (λ i. is_virtual_at i xs ≡ false) k row_real in
            ground (arith, n, m, v, apart)
      ]
      | inr (p, n) ↦ elim (Option-cases r.parent_set_id) [
        | inl m ↦
            let v = placed_parent db.sets xs row.id p row f.placed found n in
            let apart : r.id ≡ p → is_virtual_at p xs ≡ false =
              λ k. subst (λ i. is_virtual_at i xs ≡ false) k other_real in
            ground (arith, n, m, v, apart)
        | inr (q, m) ↦ ground (arith, n, m, h.apart)
      ]
    ]

flagged_family :
    (g : SetFlag → Option ℕ) (q : SetFlag → Bool) (x : ℕ) (flags : List SetFlag)
    → ((f : SetFlag) → q f ≡ true → g f ≡ some x)
    → any q flags ≡ true
    → has ◌==◌ x (filter_map g flags) ≡ true
flagged_family g q x [] h k = ground arith
flagged_family g q x (f ∷ fs) h k = elim (Bool-cases (q f)) [
  | inl e ↦ ground (arith, h f e)
  | inr e ↦ ground (arith, e, flagged_family g q x fs h)
]

-- a flag of the pair that the two ids make
pair_family :
    (of : ℕ → Option ℕ) (i w own x : ℕ) (f : SetFlag)
    → of i ≡ some own
    → of w ≡ some x
    → (own == x) ≡ false
    → flags_pair (min i w) (max i w) f ≡ true
    → other_family own (of f.set_id_a) (second_family of f.set_id_b) ≡ some x
pair_family of i w own x f hi hw n k = elim (Option-cases f.set_id_b) [
  | inl e ↦ ground (arith, e)
  | inr (b, e) ↦ elim (Bool-cases (f.set_id_a == i)) [
    | inl m ↦
        let p : f.set_id_a ≡ i = ground arith in
        let q : b ≡ w = ground (arith, e) in rw (e, p, q, hi, hw) (ground (arith, n))
    | inr m ↦
        let p : f.set_id_a ≡ w = ground (arith, e) in
        let q : b ≡ i = ground (arith, e) in rw (e, p, q, hi, hw) (ground (arith, n))
  ]
]

-- A pair that has a flag is decided.
pub flagged_pair_decided :
    (row : DjSet) (candidates : List DjSet) (db : FamilyDb) (r : DjSet)
    → ((i : ℕ) → count (is_at i) (shapes db.sets) ≤ 1)
    → AreRows db (row ∷ candidates)
    → Memᴰ r candidates
    → (family row == family r) ≡ false
    → any (flags_pair (min row.id r.id) (max row.id r.id)) db.set_flags ≡ true
    → has ◌==◌ (family r) (families_with_decision row candidates db) ≡ true
unfolding families_with_decision
flagged_pair_decided row candidates db r u h m n k =
    let of = family_of (row ∷ candidates) db in
    flagged_family (λ f. other_family (family row) (of f.set_id_a) (second_family of f.set_id_b))
      (flags_pair (min row.id r.id) (max row.id r.id)) (family r) db.set_flags
      (λ f e.
        pair_family of row.id r.id (family row) (family r) f
          (family_of_row (row ∷ candidates) db row u h (Memᴰ.head refl))
          (family_of_row (row ∷ candidates) db r u h (Memᴰ.tail m)) n e)
      k
