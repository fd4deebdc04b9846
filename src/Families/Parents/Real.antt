-- ===== src/Families/Parents/Real.antt =====
-- No operation on families deletes a real set or changes what it holds: its row, but for the parent
-- that it is under, its tracks and its artists stay.
use diggy.Prelude.{
  ℕ, suc, ◌≡◌, refl, ◌∙◌, sym, ap, Bool, true, false, not, none, some, Option, List, [], ◌∷◌, arith,
  ◌==◌, Bool-cases, Option-cases, inl, inr, find?, filter, found_in, find?-append, updated,
  find?-update_where, or_else, subst, update_where, if◌then◌else◌,
}
use diggy.Prelude.Text.{Text}
use diggy.Families.Rows.{
  DjSet, SetTrack, SetArtist, FamilyDb, Env, Result, ok, err, ◌>>=◌, has_id, get_set,
}
use diggy.Families.Metadata.{is_virtual_set}
use diggy.Families.Parents.{
  is_pair, adopt, adopt_all, new_parent, create_parent, parent_of, find_or_create_virtual_parent,
  materialize_parent, orphan,
}
use diggy.Families.Parents.Touches.{TouchesOnly, materialize_parent-TouchesOnly}

-- the row of a real set, but for its parent
abbrev pub real_row : Option DjSet → Option DjSet
real_row none = none
real_row (some s) = if s.is_virtual then none else some (record s { parent_set_id = none })

abbrev pub is_real : Option DjSet → Bool
is_real none = false
is_real (some s) = not s.is_virtual

abbrev pub of_real {ℓ} : {A : Type ℓ} → Bool → List A → List A
of_real true xs = xs
of_real false xs = []

abbrev pub real_tracks : ℕ → FamilyDb → List SetTrack
real_tracks i db = of_real (is_real (get_set i db)) (filter (λ t. t.set_id == i) db.set_tracks)

abbrev pub real_artists : ℕ → FamilyDb → List SetArtist
real_artists i db = of_real (is_real (get_set i db)) (filter (λ l. l.set_id == i) db.set_artists)

pub record KeepsReal (before after : FamilyDb) : Type 0 where
  pub rows : (i : ℕ) → real_row (get_set i after) ≡ real_row (get_set i before)
  pub tracks : (i : ℕ) → real_tracks i after ≡ real_tracks i before
  pub artists : (i : ℕ) → real_artists i after ≡ real_artists i before

pub KeepsReal-refl : (db : FamilyDb) → KeepsReal db db
KeepsReal-refl db = record { rows = λ i. refl; tracks = λ i. refl; artists = λ i. refl }

pub KeepsReal-trans : (a b c : FamilyDb) → KeepsReal a b → KeepsReal b c → KeepsReal a c
KeepsReal-trans a b c h k = record {
  rows = λ i. k.rows i ∙ h.rows i;
  tracks = λ i. k.tracks i ∙ h.tracks i;
  artists = λ i. k.artists i ∙ h.artists i;
}

pub not_real :
    (o : Option DjSet) → is_virtual_set o ≡ true → (real_row o ≡ none) × (is_real o ≡ false)
not_real none h = ground arith
not_real (some s) h = ground arith

pub real_of_row : (o q : Option DjSet) → real_row o ≡ real_row q → is_real o ≡ is_real q
real_of_row none none h = refl
real_of_row none (some t) h = ground arith
real_of_row (some s) none h = ground arith
real_of_row (some s) (some t) h = ground arith

-- Writing on a virtual set alone keeps the real ones.
pub TouchesOnly-KeepsReal :
    (p : ℕ) (before after : FamilyDb)
    → is_virtual_set (get_set p before) ≡ true
    → TouchesOnly p before after
    → KeepsReal before after
TouchesOnly-KeepsReal p before after v t =
    let old = not_real (get_set p before) v in
    let new = not_real (get_set p after) (t.still_virtual ∙ v) in
    record {
      rows = λ i. elim (Bool-cases (i == p)) [
        | inl e ↦ let q : i ≡ p = ground arith in rw q (new.0 ∙ sym old.0)
        | inr e ↦ ap real_row (t.rows i (ground arith))
      ];
      tracks = λ i. elim (Bool-cases (i == p)) [
        | inl e ↦ let q : i ≡ p = ground arith in rw (q, new.1, old.1) refl
        | inr e ↦ rw (t.rows i (ground arith), t.tracks i (ground arith)) refl
      ];
      artists = λ i. elim (Bool-cases (i == p)) [
        | inl e ↦ let q : i ≡ p = ground arith in rw (q, new.1, old.1) refl
        | inr e ↦ rw (t.rows i (ground arith), t.links i (ground arith)) refl
      ];
    }

pub materialize_parent-real :
    (env : Env) (p : ℕ) (db : FamilyDb)
    → is_virtual_set (get_set p db) ≡ false
    → (materialize_parent env p db).db ≡ db
unfolding materialize_parent
materialize_parent-real env p db e = rw e refl

pub materialize_parent-KeepsReal :
    (env : Env) (p : ℕ) (db : FamilyDb) → KeepsReal db (materialize_parent env p db).db
materialize_parent-KeepsReal env p db = elim (Bool-cases (is_virtual_set (get_set p db))) [
  | inl e ↦
      TouchesOnly-KeepsReal p db (materialize_parent env p db).db e
        (materialize_parent-TouchesOnly p env db)
  | inr e ↦
      subst (λ after. KeepsReal db after) (sym (materialize_parent-real env p db e))
        (KeepsReal-refl db)
]

-- A change of rows that keeps what is real in them keeps the real sets.
rows-KeepsReal :
    (before : FamilyDb) (sets : List DjSet) (next : ℕ)
    → ((i : ℕ) → real_row (find? (has_id i) sets) ≡ real_row (get_set i before))
    → KeepsReal before (record before { sets = sets; next_set_id = next })
rows-KeepsReal before sets next h = record {
  rows = h;
  tracks = λ i. rw (real_of_row (find? (has_id i) sets) (get_set i before) (h i)) refl;
  artists = λ i. rw (real_of_row (find? (has_id i) sets) (get_set i before) (h i)) refl;
}

real_row-updated :
    (q : DjSet → Bool) (f : DjSet → DjSet) (o : Option DjSet)
    → ((s : DjSet) → real_row (some (f s)) ≡ real_row (some s))
    → real_row (updated q f o) ≡ real_row o
real_row-updated q f none h = refl
real_row-updated q f (some s) h = elim (Bool-cases (q s)) [ inl e ↦ rw e (h s) | inr e ↦ rw e refl ]

-- An update that writes nothing but parents.
pub real_row-update_where :
    (q : DjSet → Bool) (parent : DjSet → Option ℕ) (sets : List DjSet) (i : ℕ)
    → real_row (find? (has_id i) (update_where q (λ s. record s { parent_set_id = parent s }) sets))
      ≡ real_row (find? (has_id i) sets)
real_row-update_where q parent sets i =
    ap real_row (
      find?-update_where q (has_id i) (λ s. record s { parent_set_id = parent s }) sets (λ x. refl))
    ∙ real_row-updated q (λ s. record s { parent_set_id = parent s }) (find? (has_id i) sets)
        (λ s. refl)

pub adopt-KeepsReal : (a b p : ℕ) (db : FamilyDb) → KeepsReal db (adopt a b p db)
unfolding adopt
adopt-KeepsReal a b p db =
    rows-KeepsReal db _ db.next_set_id
      (real_row-update_where (is_pair a b) (λ s. or_else s.parent_set_id (some p)) db.sets)

pub adopt_all-KeepsReal : (ms : List ℕ) (p : ℕ) (db : FamilyDb) → KeepsReal db (adopt_all ms p db)
unfolding adopt_all
adopt_all-KeepsReal [] p db = KeepsReal-refl db
adopt_all-KeepsReal (m ∷ ms) p db =
    KeepsReal-trans db (adopt m m p db) (adopt_all ms p (adopt m m p db)) (adopt-KeepsReal m m p db)
      (adopt_all-KeepsReal ms p (adopt m m p db))

real_row-found_in :
    (o : Option DjSet) (s : DjSet)
    → s.is_virtual ≡ true
    → (i : ℕ) → real_row (found_in o (if has_id i s then some s else none)) ≡ real_row o
real_row-found_in none s h i = ground arith
real_row-found_in (some t) s h i = refl

pub create_parent-KeepsReal :
    (env : Env) (played_date : Option ℕ) (title : Option Text) (set_a set_b : DjSet) (db : FamilyDb)
    → KeepsReal db (create_parent env played_date title set_a set_b db)
unfolding create_parent new_parent
create_parent-KeepsReal env played_date title set_a set_b db =
    let p = db.next_set_id in
    rows-KeepsReal db _ (suc p) (λ i.
      ap real_row (
        find?-append (has_id i)
          (update_where (is_pair set_a.id set_b.id) (λ s. record s { parent_set_id = some p })
            db.sets)
          _)
      ∙ real_row-found_in _ (new_parent env p played_date title set_a set_b) refl i
      ∙ real_row-update_where (is_pair set_a.id set_b.id) (λ s. some p) db.sets i)

pub orphan-KeepsReal : (q : DjSet → Bool) (db : FamilyDb) → KeepsReal db (orphan q db)
orphan-KeepsReal q db =
    rows-KeepsReal db _ db.next_set_id (real_row-update_where q (λ s. none) db.sets)

pub parent_of-KeepsReal :
    (env : Env) (o played_date : Option ℕ) (title : Option Text) (set_a set_b : DjSet)
    (db : FamilyDb)
    → KeepsReal db (parent_of env o played_date title set_a set_b db).db
parent_of-KeepsReal env (some p) played_date title set_a set_b db =
    adopt-KeepsReal set_a.id set_b.id p db
parent_of-KeepsReal env none played_date title set_a set_b db =
    create_parent-KeepsReal env played_date title set_a set_b db

-- What a call keeps where it does not raise.
abbrev pub Keeps : {A : Type 0} → (A → FamilyDb) → FamilyDb → Result A → Type 0
Keeps db_of before (ok a) = KeepsReal before (db_of a)
Keeps db_of before (err e) = Unit

pub find_or_create-Keeps :
    (env : Env) (a b : ℕ) (played_date : Option ℕ) (title : Option Text) (db : FamilyDb)
    → Keeps (λ r. r.db) db (find_or_create_virtual_parent env a b played_date title db)
unfolding find_or_create_virtual_parent
find_or_create-Keeps env a b played_date title db = elim (Option-cases (get_set a db)) [
  | inl e ↦ rw e tt
  | inr (set_a, e) ↦ elim (Option-cases (get_set b db)) [
    | inl f ↦ rw (e, f) tt
    | inr (set_b, f) ↦
        rw (e, f)
          (parent_of-KeepsReal env (or_else set_a.parent_set_id set_b.parent_set_id) played_date
            title set_a set_b db)
  ]
]

module _ {A B : Type 0} (before : FamilyDb) (db_of : B → FamilyDb) where
  pub Keeps-bind :
      (own : A → FamilyDb) (m : Result A) (f : A → Result B)
      → Keeps own before m
      → ((a : A) → KeepsReal before (own a) → Keeps db_of before (f a))
      → Keeps db_of before (m >>= f)
  Keeps-bind own (ok a) f h k = k a h
  Keeps-bind own (err e) f h k = tt

  -- a step that reads, and may raise
  pub Keeps-after :
      (m : Result A) (f : A → Result B)
      → ((a : A) → Keeps db_of before (f a))
      → Keeps db_of before (m >>= f)
  Keeps-after (ok a) f k = k a
  Keeps-after (err e) f k = tt
