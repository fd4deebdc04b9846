-- ===== src/Families/Forest/Attach.antt =====
-- `attach_pair` and the shape of the families.
use diggy.Prelude.{
  ℕ, suc, ◌<◌, ◌≡◌, refl, ◌∙◌, sym, ap, subst, Bool, true, false, ◌&&◌, ◌||◌, none, some, Option,
  List, [], ◌∷◌, ◌++◌, arith, ◌==◌, or_else, Bool-cases, Option-cases, inl, inr, find?,
  find?-eq-some, any, any-append, All, update_where, if◌then◌else◌,
}
use diggy.Prelude.Text.{Text}
use diggy.Families.Rows.{
  DjSet, FamilyDb, Env, ok, ◌>>=◌, has_id, get_set, value_error, lookup_error,
}
use diggy.Families.Results.{Ensures, Ensures-or_raise, Ensures-raise_if}
use diggy.Families.Metadata.{is_virtual_set}
use diggy.Families.Parents.{
  Parent, is_pair, adopt, new_parent, create_parent, find_or_create_virtual_parent,
  materialize_parent, materialized, differ, bad_parent, attach_pair,
}
use diggy.Families.Forest.{
  Shape, shape, shapes, has_parent, under, root, reparent, is_virtual_at, virtual_at_same, IsForest,
  adopt-IsForest, grow-IsForest,
}
use diggy.Families.Forest.Shapes.{
  IsFamilyForest, SameShape-IsForest, materialize_parent-SameShape, shapes-update_where,
  shapes-append, found_real, found_virtual,
}

abbrev pub is_under : ℕ → ℕ → List Shape → Bool
is_under p i xs = any (λ s. s.id == i && has_parent p s) xs

-- the families once `a` and `b` are attached
pub record IsAttached (a b : ℕ) (r : Parent) : Type 0 where
  pub forest : IsFamilyForest r.db
  pub virtual : is_virtual_at r.parent_id (shapes r.db.sets) ≡ true
  pub left : is_under r.parent_id a (shapes r.db.sets) ≡ true
  pub right : is_under r.parent_id b (shapes r.db.sets) ≡ true

abbrev at_pair : ℕ → ℕ → Shape → Bool
at_pair a b s = s.id == a || s.id == b

pair_real :
    (a b : ℕ) (xs : List Shape)
    → is_virtual_at a xs ≡ false
    → is_virtual_at b xs ≡ false
    → any (λ s. at_pair a b s && s.is_virtual) xs ≡ false
pair_real a b [] h k = refl
pair_real a b (s ∷ xs) h k = ground (arith, pair_real a b xs)

-- a set that the update reaches comes to be under `p`
placed_under_parent :
    (q : Shape → Bool) (parent : Shape → Option ℕ) (p i : ℕ) (xs : List DjSet) (s : DjSet)
    → find? (has_id i) xs ≡ some s
    → ((t : Shape) → (t.id == i) ≡ true → q t ≡ true)
    → parent (shape s) ≡ some p
    → is_under p i (reparent q parent (shapes xs)) ≡ true
placed_under_parent q parent p i [] s e h k = ground arith
placed_under_parent q parent p i (t ∷ xs) s e h k = elim (Bool-cases (has_id i t)) [
  | inl m ↦
      let same : t ≡ s = ground arith in
      ground (arith, h (shape t) m, ap (λ u. parent (shape u)) same ∙ k)
  | inr m ↦ ground (arith, placed_under_parent q parent p i xs s)
]

update_where-append {ℓ} :
    {A : Type ℓ} (q : A → Bool) (f : A → A) (xs ys : List A)
    → update_where q f (xs ++ ys) ≡ update_where q f xs ++ update_where q f ys
update_where-append q f [] ys = refl
update_where-append q f (x ∷ xs) ys =
    ap (λ zs. (if q x then f x else x) ∷ zs) (update_where-append q f xs ys)

below_next :
    (i next : ℕ) (xs : List DjSet) (s : DjSet)
    → All (λ t. t.id < next) (shapes xs)
    → find? (has_id i) xs ≡ some s
    → i < next
below_next i next [] s h e = ground arith
below_next i next (t ∷ xs) s (h, hs) e = ground (arith, below_next i next xs s hs)

agree :
    (p q : Option ℕ) (r : ℕ)
    → differ p q ≡ false
    → or_else p q ≡ some r
    → (or_else p (some r) ≡ some r) × (or_else q (some r) ≡ some r)
agree none none r h e = ground arith
agree none (some q) r h e = ground arith
agree (some p) none r h e = ground arith
agree (some p) (some q) r h e = ground arith

adopt-IsAttached :
    (a b p : ℕ) (created : Bool) (sa sb : DjSet) (db : FamilyDb)
    → IsFamilyForest db
    → get_set a db ≡ some sa
    → get_set b db ≡ some sb
    → sa.is_virtual ≡ false
    → sb.is_virtual ≡ false
    → (or_else sa.parent_set_id (some p) ≡ some p) × (or_else sb.parent_set_id (some p) ≡ some p)
    → is_virtual_at p (shapes db.sets) ≡ true
    → IsAttached a b (record { parent_id = p; created = created; db = adopt a b p db })
unfolding adopt
adopt-IsAttached a b p created sa sb db f ea eb ra rb h v =
    let q = at_pair a b in
    let parent = λ (s : Shape). or_else s.parent (some p) in
    let shape_of : shapes (adopt a b p db).sets ≡ reparent q parent (shapes db.sets) =
      shapes-update_where (is_pair a b) _ q (λ s. under (parent s) s) db.sets (λ s. refl)
        (λ s. refl) in
    record {
      forest = rw shape_of (
          adopt-IsForest q p parent (shapes db.sets) db.next_set_id f v
            (λ s. elim (Option-cases s.parent) [
              | inl e ↦ inr (rw e refl)
              | inr (r, e) ↦ inl (rw e refl)
            ])
            (pair_real a b (shapes db.sets) (found_real a db.sets sa (f.unique a) ea ra)
              (found_real b db.sets sb (f.unique b) eb rb)));
      virtual = rw shape_of (virtual_at_same q parent (shapes db.sets) p ∙ v);
      left =
          rw shape_of
            (placed_under_parent q parent p a db.sets sa ea (λ t e. ground (arith, e)) h.0);
      right =
          rw shape_of
            (placed_under_parent q parent p b db.sets sb eb (λ t e. ground (arith, e)) h.1);
    }

new_parent-shape :
    (env : Env) (p : ℕ) (played_date : Option ℕ) (title : Option Text) (sa sb : DjSet)
    → shape (new_parent env p played_date title sa sb) ≡ root p
unfolding new_parent
new_parent-shape env p played_date title sa sb = refl

shapes-create_parent :
    (env : Env) (played_date : Option ℕ) (title : Option Text) (sa sb : DjSet) (db : FamilyDb)
    → shapes (create_parent env played_date title sa sb db).sets
      ≡ reparent (at_pair sa.id sb.id) (λ s. some db.next_set_id) (shapes db.sets)
        ++ root db.next_set_id ∷ []
unfolding create_parent
shapes-create_parent env played_date title sa sb db =
    let p = db.next_set_id in
    let q = is_pair sa.id sb.id in
    let f = λ (s : DjSet). record s { parent_set_id = some p } in
    shapes-append (update_where q f db.sets) (new_parent env p played_date title sa sb ∷ [])
    ∙ ap (λ ys. ys ++ shape (new_parent env p played_date title sa sb) ∷ [])
        (shapes-update_where q f (at_pair sa.id sb.id) (under (some p)) db.sets (λ s. refl)
          (λ s. refl))
    ∙ ap (λ r. reparent (at_pair sa.id sb.id) (λ s. some p) (shapes db.sets) ++ r ∷ [])
        (new_parent-shape env p played_date title sa sb)

under_append :
    (p i : ℕ) (xs ys : List Shape) → is_under p i xs ≡ true → is_under p i (xs ++ ys) ≡ true
under_append p i xs ys h = ground (arith, h, any-append (λ s. s.id == i && has_parent p s) xs ys)

-- the new virtual set at the end, which is neither `a` nor `b`
grown_reparent :
    (a b p : ℕ) (xs : List Shape)
    → a < p
    → b < p
    → reparent (at_pair a b) (λ s. some p) (xs ++ root p ∷ [])
      ≡ reparent (at_pair a b) (λ s. some p) xs ++ root p ∷ []
grown_reparent a b p xs h k =
    let same : at_pair a b (root p) ≡ false = ground arith in
    update_where-append (at_pair a b) (under (some p)) xs (root p ∷ [])
    ∙ ap
        (λ t.
          reparent (at_pair a b) (λ s. some p) xs
          ++ (if t then under (some p) (root p) else root p) ∷ [])
        same

grown_real :
    (i p : ℕ) (xs : List Shape)
    → i < p
    → is_virtual_at i xs ≡ false
    → is_virtual_at i (xs ++ root p ∷ []) ≡ false
grown_real i p xs h k =
    ground (arith, k, any-append (λ s. s.id == i && s.is_virtual) xs (root p ∷ []))

grown_virtual : (p : ℕ) (xs : List Shape) → is_virtual_at p (xs ++ root p ∷ []) ≡ true
grown_virtual p [] = ground arith
grown_virtual p (s ∷ xs) = ground (arith, grown_virtual p xs)

create-IsAttached :
    (env : Env) (a b : ℕ) (played_date : Option ℕ) (title : Option Text) (sa sb : DjSet)
    (db : FamilyDb)
    → IsFamilyForest db
    → get_set a db ≡ some sa
    → get_set b db ≡ some sb
    → sa.id ≡ a
    → sb.id ≡ b
    → sa.is_virtual ≡ false
    → sb.is_virtual ≡ false
    → IsAttached a b (record {
      parent_id = db.next_set_id;
      created = true;
      db = create_parent env played_date title sa sb db;
    })
unfolding create_parent
create-IsAttached env a b played_date title sa sb db f ea eb ia ib ra rb =
    let p = db.next_set_id in
    let xs = shapes db.sets in
    let q = at_pair a b in
    let parent = λ (s : Shape). some p in
    let below_a = below_next a p db.sets sa f.fresh ea in
    let below_b = below_next b p db.sets sb f.fresh eb in
    let grown = grown_reparent a b p xs below_a below_b in
    let shape_of : shapes (create_parent env played_date title sa sb db).sets
        ≡ reparent q parent xs ++ root p ∷ [] =
      shapes-create_parent env played_date title sa sb db
      ∙ ap (λ i. reparent (at_pair i sb.id) parent xs ++ root p ∷ []) ia
      ∙ ap (λ i. reparent (at_pair a i) parent xs ++ root p ∷ []) ib in
    record {
      forest =
          subst (λ ys. IsForest ys (suc p)) (sym (shape_of ∙ sym grown))
            (adopt-IsForest q p parent (xs ++ root p ∷ []) (suc p) (grow-IsForest xs p f)
              (grown_virtual p xs) (λ s. inr refl)
              (pair_real a b (xs ++ root p ∷ [])
                (grown_real a p xs below_a (found_real a db.sets sa (f.unique a) ea ra))
                (grown_real b p xs below_b (found_real b db.sets sb (f.unique b) eb rb))));
      virtual =
          rw (shape_of ∙ sym grown)
            (virtual_at_same q parent (xs ++ root p ∷ []) p ∙ grown_virtual p xs);
      left = rw shape_of (
          under_append p a (reparent q parent xs) (root p ∷ [])
            (placed_under_parent q parent p a db.sets sa ea (λ t e. ground (arith, e)) refl));
      right = rw shape_of (
          under_append p b (reparent q parent xs) (root p ∷ [])
            (placed_under_parent q parent p b db.sets sb eb (λ t e. ground (arith, e)) refl));
    }

materialized-IsAttached :
    (env : Env) (a b : ℕ) (r : Parent) → IsAttached a b r → IsAttached a b (materialized env r)
materialized-IsAttached env a b r h =
    let same = materialize_parent-SameShape env r.parent_id r.db in
    record {
      forest = SameShape-IsForest r.db (materialize_parent env r.parent_id r.db).db same h.forest;
      virtual = rw same.0 h.virtual;
      left = rw same.0 h.left;
      right = rw same.0 h.right;
    }

attach_pair_accepted :
    (env : Env) (a b : ℕ) (sa sb : DjSet) (db : FamilyDb)
    → IsFamilyForest db
    → get_set a db ≡ some sa
    → get_set b db ≡ some sb
    → (sa.is_virtual || sb.is_virtual) ≡ false
    → differ sa.parent_set_id sb.parent_set_id ≡ false
    → bad_parent (or_else sa.parent_set_id sb.parent_set_id) db ≡ false
    → Ensures (IsAttached a b) (
        find_or_create_virtual_parent env a b none none db >>= λ parent.
        ok (materialized env parent))
unfolding find_or_create_virtual_parent
attach_pair_accepted env a b sa sb db f ea eb r d bad =
    let ia : sa.id ≡ a = ground (arith, find?-eq-some (has_id a) db.sets sa ea) in
    let ib : sb.id ≡ b = ground (arith, find?-eq-some (has_id b) db.sets sb eb) in
    let ra : sa.is_virtual ≡ false = ground arith in
    let rb : sb.is_virtual ≡ false = ground arith in
    rw (ea, eb)
      (elim (Option-cases (or_else sa.parent_set_id sb.parent_set_id)) [
        | inl e ↦ rw e (
            materialized-IsAttached env a b _
              (create-IsAttached env a b none none sa sb db f ea eb ia ib ra rb))
        | inr (p, e) ↦
            let good : is_virtual_set (get_set p db) ≡ true =
              ground (arith, subst (λ o. bad_parent o db ≡ false) e bad) in
            rw (e, ia, ib)
              (materialized-IsAttached env a b _ (
                adopt-IsAttached a b p false sa sb db f ea eb ra rb
                  (agree sa.parent_set_id sb.parent_set_id p d e) (found_virtual p db.sets good)))
      ])

-- In a forest, a pair that is attached is under one virtual set afterwards, and the families stay
-- a forest.
pub attach_pair-IsAttached :
    (env : Env) (a b : ℕ) (db : FamilyDb)
    → IsFamilyForest db
    → Ensures (IsAttached a b) (attach_pair env a b db)
unfolding attach_pair
attach_pair-IsAttached env a b db f =
    Ensures-or_raise (IsAttached a b) (get_set a db) lookup_error _ (λ sa ea.
      Ensures-or_raise (IsAttached a b) (get_set b db) lookup_error _ (λ sb eb.
        Ensures-raise_if (IsAttached a b) (a == b) value_error _ (λ n.
          Ensures-raise_if (IsAttached a b) (sa.is_virtual || sb.is_virtual) value_error _ (λ r.
            Ensures-raise_if (IsAttached a b) (differ sa.parent_set_id sb.parent_set_id) value_error
              _
              (λ d.
                Ensures-raise_if (IsAttached a b)
                  (bad_parent (or_else sa.parent_set_id sb.parent_set_id) db) value_error _
                  (attach_pair_accepted env a b sa sb db f ea eb r d))))))
