-- ===== src/Families/Forest.antt =====
-- The shape of the families: every parent is a virtual set, no virtual set is under a parent, ids
-- are unique and below the sequence that numbers new sets. This is about the ids, the parents and
-- the `is_virtual` of the rows of sets, whatever else they hold.
pub mod Shapes
pub mod Attach
pub mod Detach
pub mod Accepts
use diggy.Prelude.{
  ℕ, suc, ◌+◌, ◌≤◌, ◌<◌, ◌≡◌, ◌≢◌, refl, ◌∙◌, ap, sym, subst, Bool, true, false, not, ◌&&◌, ◌||◌,
  Option, none, some, List, [], ◌∷◌, ◌++◌, map, arith, ◌==◌, Bool-cases, ◌⊎◌, inl, inr,
  if◌then◌else◌, get_or, any, any-append, any-update_where, any-delete_where_disjoint, count,
  count-append, count-update_where, count-delete_where_le, count-zero, All, All-imp, All-both,
  All-any, All-append, All-update_where, All-delete_where, update_where, delete_where,
}
use diggy.Families.Rows.{DjSet}

pub record Shape : Type 0 where
  pub id : ℕ
  pub parent : Option ℕ
  pub is_virtual : Bool

abbrev pub shape : DjSet → Shape
shape s = record { id = s.id; parent = s.parent_set_id; is_virtual = s.is_virtual }

abbrev pub shapes : List DjSet → List Shape
shapes sets = map shape sets

abbrev pub is_at : ℕ → Shape → Bool
is_at i s = s.id == i

abbrev pub is_virtual_at : ℕ → List Shape → Bool
is_virtual_at p xs = any (λ s. s.id == p && s.is_virtual) xs

-- under no parent, or a real set under a virtual one
abbrev pub is_placed : List Shape → Shape → Bool
is_placed xs s = elim s.parent [ none ↦ true | some p ↦ not s.is_virtual && is_virtual_at p xs ]

pub record IsForest (xs : List Shape) (next : ℕ) : Type 0 where
  pub placed : All (λ s. is_placed xs s ≡ true) xs
  pub unique : (i : ℕ) → count (is_at i) xs ≤ 1
  pub fresh : All (λ s. s.id < next) xs

abbrev pub under : Option ℕ → Shape → Shape
under p s = record s { parent = p }

-- a real set that has no parent is put under `p`, a virtual one
placed_under :
    (xs : List Shape) (q : Shape → Bool) (p : ℕ) (parent : Shape → Option ℕ) (s : Shape)
    → is_virtual_at p xs ≡ true
    → ((s : Shape) → (parent s ≡ s.parent) ⊎ (parent s ≡ some p))
    → is_placed xs s ≡ true
    → (q s && s.is_virtual) ≡ false
    → is_placed xs (if q s then under (parent s) s else s) ≡ true
placed_under xs q p parent s v h k n = elim (Bool-cases (q s)) [
  | inl e ↦ elim (h s) [ inl same ↦ rw (e, same) k | inr new ↦ rw (e, new) (ground arith) ]
  | inr e ↦ rw e k
]

-- the shape of an update of parents
abbrev pub reparent : (Shape → Bool) → (Shape → Option ℕ) → List Shape → List Shape
reparent q parent xs = update_where q (λ s. under (parent s) s) xs

pub virtual_at_same :
    (q : Shape → Bool) (parent : Shape → Option ℕ) (xs : List Shape) (p : ℕ)
    → is_virtual_at p (reparent q parent xs) ≡ is_virtual_at p xs
virtual_at_same q parent xs p =
    any-update_where q (λ s. s.id == p && s.is_virtual) (λ s. under (parent s) s) xs (λ s. refl)

abbrev pub has_parent : ℕ → Shape → Bool
has_parent p s = elim s.parent [ none ↦ false | some q ↦ q == p ]

reparent-IsForest :
    (q : Shape → Bool) (parent : Shape → Option ℕ) (xs : List Shape) (next : ℕ)
    → IsForest xs next
    → All (λ s. is_placed xs (if q s then under (parent s) s else s) ≡ true) xs
    → IsForest (reparent q parent xs) next
reparent-IsForest q parent xs next f h =
    let f_of = λ (s : Shape). under (parent s) s in
    record {
      placed =
          All-imp (λ s. is_placed xs s ≡ true) (λ s. is_placed (reparent q parent xs) s ≡ true)
            (reparent q parent xs)
            (λ s e. ground (arith, e, virtual_at_same q parent xs (get_or s.parent 0)))
            (All-update_where (λ s. is_placed xs s ≡ true) q f_of xs h);
      unique = λ i. rw (count-update_where q (is_at i) f_of xs (λ s. refl)) (f.unique i);
      fresh =
          All-update_where (λ s. s.id < next) q f_of xs
            (All-imp (λ s. s.id < next) (λ s. (if q s then f_of s else s).id < next) xs
              (λ s e. ground arith) f.fresh);
    }

-- Sets, none of them virtual, that get the virtual set `p` where they have no parent.
pub adopt-IsForest :
    (q : Shape → Bool) (p : ℕ) (parent : Shape → Option ℕ) (xs : List Shape) (next : ℕ)
    → IsForest xs next
    → is_virtual_at p xs ≡ true
    → ((s : Shape) → (parent s ≡ s.parent) ⊎ (parent s ≡ some p))
    → any (λ s. q s && s.is_virtual) xs ≡ false
    → IsForest (reparent q parent xs) next
adopt-IsForest q p parent xs next f v h n = reparent-IsForest q parent xs next f (
    All-imp (λ s. (is_placed xs s ≡ true) × ((q s && s.is_virtual) ≡ false)) _ xs
      (λ s k. placed_under xs q p parent s v h k.0 k.1)
      (All-both (λ s. is_placed xs s ≡ true) (λ s. (q s && s.is_virtual) ≡ false) xs f.placed
        (All-any (λ s. q s && s.is_virtual) xs n)))

-- Sets that lose their parent.
pub orphan-IsForest :
    (q : Shape → Bool) (xs : List Shape) (next : ℕ)
    → IsForest xs next
    → IsForest (reparent q (λ s. none) xs) next
orphan-IsForest q xs next f =
    reparent-IsForest q (λ s. none) xs next f
      (All-imp (λ s. is_placed xs s ≡ true)
        (λ s. is_placed xs (if q s then under none s else s) ≡ true) xs
        (λ s e. elim (Bool-cases (q s)) [ inl k ↦ rw k refl | inr k ↦ rw k e ]) f.placed)

abbrev pub root : ℕ → Shape
root i = record { id = i; parent = none; is_virtual = true }

grown_placed :
    (xs : List Shape) (next : ℕ) (s : Shape)
    → is_placed xs s ≡ true
    → is_placed (xs ++ root next ∷ []) s ≡ true
grown_placed xs next s e =
    ground (arith, any-append (λ t. t.id == get_or s.parent 0 && t.is_virtual) xs (root next ∷ []))

grown_unique :
    (xs : List Shape) (next i : ℕ) → All (λ s. s.id < next) xs → i ≡ next → count (is_at i) xs ≡ 0
grown_unique [] next i h e = refl
grown_unique (s ∷ xs) next i (h, hs) e = ground (arith, grown_unique xs next i hs e)

-- A new virtual set.
pub grow-IsForest :
    (xs : List Shape) (next : ℕ) → IsForest xs next → IsForest (xs ++ root next ∷ []) (suc next)
grow-IsForest xs next f = record {
  placed =
      All-append (λ s. is_placed (xs ++ root next ∷ []) s ≡ true) xs (root next ∷ [])
        (All-imp (λ s. is_placed xs s ≡ true) (λ s. is_placed (xs ++ root next ∷ []) s ≡ true) xs
          (grown_placed xs next) f.placed)
        (refl, tt);
  unique = λ i. ground (
    arith,
    count-append (is_at i) xs (root next ∷ []),
    f.unique i,
    grown_unique xs next i f.fresh,
  );
  fresh =
      All-append (λ s. s.id < suc next) xs (root next ∷ [])
        (All-imp (λ s. s.id < next) (λ s. s.id < suc next) xs (λ s e. omega arith) f.fresh)
        (omega arith, tt);
}

kept_placed :
    (p : ℕ) (xs : List Shape) (s : Shape)
    → is_placed xs s ≡ true
    → has_parent p s ≡ false
    → is_placed (delete_where (is_at p) xs) s ≡ true
kept_placed p xs s e n =
    ground (
      arith,
      any-delete_where_disjoint (is_at p) (λ t. t.id == get_or s.parent 0 && t.is_virtual) xs,
    )

-- A set that is no parent is deleted.
pub delete-IsForest :
    (p : ℕ) (xs : List Shape) (next : ℕ)
    → IsForest xs next
    → any (has_parent p) xs ≡ false
    → IsForest (delete_where (is_at p) xs) next
delete-IsForest p xs next f n =
    let rest = delete_where (is_at p) xs in
    record {
      placed =
          All-delete_where (λ s. is_placed rest s ≡ true) (is_at p) xs
            (All-imp (λ s. (is_placed xs s ≡ true) × (has_parent p s ≡ false)) _ xs
              (λ s k. kept_placed p xs s k.0 k.1)
              (All-both (λ s. is_placed xs s ≡ true) (λ s. has_parent p s ≡ false) xs f.placed
                (All-any (has_parent p) xs n)));
      unique = λ i. omega (arith, count-delete_where_le (is_at p) (is_at i) xs, f.unique i);
      fresh = All-delete_where (λ s. s.id < next) (is_at p) xs f.fresh;
    }
