-- ===== src/Families/Parents/Touches.antt =====
-- `materialize_parent` writes on the parent alone.
use diggy.Prelude.{
  ℕ, suc, ◌≡◌, ◌≢◌, refl, ◌∙◌, ap, Bool, true, false, none, some, Option, List, [], ◌∷◌, ◌++◌,
  arith, ◌==◌, Bool-cases, inl, inr, find?, filter, filter-append, filter-delete_where_disjoint,
  updated, update_where,
}
use mathlib.Core.List.{append-nil}
use diggy.Families.Rows.{DjSet, Track, SetArtist, FamilyDb, Env, has_id, get_set}
use diggy.Families.Metadata.{
  derive_metadata, new_links, linked_to, child_links, children_of, sync_from, is_virtual_set,
  sync_parent_metadata,
}
use diggy.Families.Parents.{
  tracks_of, merged_tracks, merged_duration, numbered, without_tracks, with_tracks, rebuild,
  materialize_parent,
}

-- Beside the set `p`, whose row stays and stays virtual if it is, nothing is touched.
pub record TouchesOnly (p : ℕ) (before after : FamilyDb) : Type 0 where
  pub rows : (i : ℕ) → i ≢ p → get_set i after ≡ get_set i before
  pub still_virtual : is_virtual_set (get_set p after) ≡ is_virtual_set (get_set p before)
  pub tracks :
      (i : ℕ)
      → i ≢ p
      → filter (λ t. t.set_id == i) after.set_tracks ≡ filter (λ t. t.set_id == i) before.set_tracks
  pub links :
      (i : ℕ)
      → i ≢ p
      → filter (λ l. l.set_id == i) after.set_artists
        ≡ filter (λ l. l.set_id == i) before.set_artists
  pub flags : after.set_flags ≡ before.set_flags

module _ (p : ℕ) where
  pub TouchesOnly-refl : (db : FamilyDb) → TouchesOnly p db db
  TouchesOnly-refl db = record {
    rows = λ i h. refl;
    still_virtual = refl;
    tracks = λ i h. refl;
    links = λ i h. refl;
    flags = refl;
  }

  pub TouchesOnly-trans :
      (a b c : FamilyDb) → TouchesOnly p a b → TouchesOnly p b c → TouchesOnly p a c
  TouchesOnly-trans a b c h k = record {
    rows = λ i n. k.rows i n ∙ h.rows i n;
    still_virtual = k.still_virtual ∙ h.still_virtual;
    tracks = λ i n. k.tracks i n ∙ h.tracks i n;
    links = λ i n. k.links i n ∙ h.links i n;
    flags = k.flags ∙ h.flags;
  }

  updated_other :
      (i : ℕ) (f : DjSet → DjSet) (o : Option DjSet)
      → i ≢ p
      → ((s : DjSet) → o ≡ some s → has_id i s ≡ true)
      → updated (has_id p) f o ≡ o
  updated_other i f none h k = refl
  updated_other i f (some s) h k = ground (arith, k s refl)

  -- an update of the row of `p` that keeps its id and whether it is virtual
  rows_other :
      (f : DjSet → DjSet) (sets : List DjSet)
      → ((s : DjSet) → (f s).id ≡ s.id)
      → (i : ℕ) → i ≢ p
      → find? (has_id i) (update_where (has_id p) f sets) ≡ find? (has_id i) sets
  rows_other f [] keeps i h = refl
  rows_other f (s ∷ sets) keeps i h = ground (arith, keeps s, rows_other f sets keeps i h)

  rows_virtual :
      (f : DjSet → DjSet) (sets : List DjSet)
      → ((s : DjSet) → (f s).id ≡ s.id)
      → ((s : DjSet) → (f s).is_virtual ≡ s.is_virtual)
      → is_virtual_set (find? (has_id p) (update_where (has_id p) f sets))
        ≡ is_virtual_set (find? (has_id p) sets)
  rows_virtual f [] keeps same = refl
  rows_virtual f (s ∷ sets) keeps same =
      ground (arith, keeps s, same s, rows_virtual f sets keeps same)

  numbered_other :
      (i n : ℕ) (ts : List Track) → i ≢ p → filter (λ t. t.set_id == i) (numbered p n ts) ≡ []
  numbered_other i n [] h = refl
  numbered_other i n (t ∷ ts) h = ground (arith, numbered_other i (suc n) ts h)

  new_links_other :
      (i : ℕ) (linked : List ℕ) (ls : List SetArtist)
      → i ≢ p
      → filter (λ l. l.set_id == i) (new_links p linked ls) ≡ []
  unfolding new_links
  new_links_other i linked [] h = refl
  new_links_other i linked (l ∷ ls) h =
      ground (arith, new_links_other i linked ls h, new_links_other i (l.artist_id ∷ linked) ls h)

  filter_append_other {ℓ} :
      {A : Type ℓ} (q : A → Bool) (xs ys : List A)
      → filter q ys ≡ []
      → filter q (xs ++ ys) ≡ filter q xs
  filter_append_other q xs ys h =
      filter-append q xs ys ∙ ap (λ zs. filter q xs ++ zs) h ∙ append-nil (filter q xs)

  derive_metadata_id :
      (env : Env) (children : List DjSet) (s : DjSet)
      → ((derive_metadata env children s).id ≡ s.id)
        × ((derive_metadata env children s).is_virtual ≡ s.is_virtual)
  unfolding derive_metadata
  derive_metadata_id env children s = (refl, refl)

  sync_from-TouchesOnly :
      (env : Env) (children : List DjSet) (db : FamilyDb)
      → TouchesOnly p db (sync_from env p children db)
  sync_from-TouchesOnly env [] db = TouchesOnly-refl db
  sync_from-TouchesOnly env (c ∷ cs) db =
      let f = derive_metadata env (c ∷ cs) in
      let keeps = λ (s : DjSet). (derive_metadata_id env (c ∷ cs) s).0 in
      record {
        rows = rows_other f db.sets keeps;
        still_virtual = rows_virtual f db.sets keeps (λ s. (derive_metadata_id env (c ∷ cs) s).1);
        tracks = λ i h. refl;
        links = λ i h.
            filter_append_other (λ l. l.set_id == i) db.set_artists _
              (new_links_other i (linked_to p db.set_artists) (child_links (c ∷ cs) db.set_artists)
                h);
        flags = refl;
      }

  pub sync_parent_metadata-TouchesOnly :
      (env : Env) (db : FamilyDb) → TouchesOnly p db (sync_parent_metadata env p db)
  unfolding sync_parent_metadata
  sync_parent_metadata-TouchesOnly env db = elim (Bool-cases (is_virtual_set (get_set p db))) [
    | inl e ↦ rw e (sync_from-TouchesOnly env (children_of p db) db)
    | inr e ↦ rw e (TouchesOnly-refl db)
  ]

  without_tracks-TouchesOnly : (db : FamilyDb) → TouchesOnly p db (without_tracks p db)
  without_tracks-TouchesOnly db = record {
    rows = λ i h. refl;
    still_virtual = refl;
    links = λ i h. refl;
    flags = refl;
    tracks = λ i h.
        filter-delete_where_disjoint (λ t. t.set_id == p) (λ t. t.set_id == i) db.set_tracks
          (λ x e. ground arith);
  }

  with_tracks-TouchesOnly :
      (merged : List Track) (duration : ℕ) (db : FamilyDb)
      → TouchesOnly p db (with_tracks p merged duration db)
  with_tracks-TouchesOnly merged duration db = record {
    rows = rows_other (λ s. record s { duration_ms = some duration }) db.sets (λ s. refl);
    still_virtual =
        rows_virtual (λ s. record s { duration_ms = some duration }) db.sets (λ s. refl)
          (λ s. refl);
    tracks = λ i h.
        filter_append_other (λ t. t.set_id == i) db.set_tracks _ (numbered_other i 1 merged h);
    links = λ i h. refl;
    flags = refl;
  }

  rebuild-TouchesOnly :
      (env : Env) (children : List DjSet) (db : FamilyDb)
      → TouchesOnly p db (rebuild env p children db).db
  rebuild-TouchesOnly env [] db = sync_parent_metadata-TouchesOnly env db
  rebuild-TouchesOnly env (c ∷ cs) db =
      let merged = merged_tracks env (tracks_of db) (c ∷ cs) in
      let duration = merged_duration (tracks_of db) (c ∷ cs) in
      let filled = with_tracks p merged duration db in
      TouchesOnly-trans db filled (sync_parent_metadata env p filled)
        (with_tracks-TouchesOnly merged duration db) (sync_parent_metadata-TouchesOnly env filled)

  pub materialize_parent-TouchesOnly :
      (env : Env) (db : FamilyDb) → TouchesOnly p db (materialize_parent env p db).db
  unfolding materialize_parent
  materialize_parent-TouchesOnly env db = elim (Bool-cases (is_virtual_set (get_set p db))) [
    | inl e ↦ rw e (
        TouchesOnly-trans db (without_tracks p db)
          (rebuild env p (children_of p db) (without_tracks p db)).db
          (without_tracks-TouchesOnly db)
          (rebuild-TouchesOnly env (children_of p db) (without_tracks p db)))
    | inr e ↦ rw e (TouchesOnly-refl db)
  ]

  -- The set is virtual and nothing is touched beside it, or it is real or missing and nothing at
  -- all is touched.
  pub data IsConfined (before after : FamilyDb) : Type 0 where
    rebuilt :
        is_virtual_set (get_set p before) ≡ true
        → TouchesOnly p before after
        → IsConfined before after
    untouched : is_virtual_set (get_set p before) ≡ false → after ≡ before → IsConfined before after

  -- Rebuilding a virtual set `p` leaves the row, the tracks and the artists of every other set, and
  -- every flag, as they are, and `p` stays virtual. Where `p` is real or missing, nothing at all
  -- changes, its own row, tracks and artists included.
  pub materialize_parent-IsConfined :
      (env : Env) (db : FamilyDb) → IsConfined db (materialize_parent env p db).db
  unfolding materialize_parent
  materialize_parent-IsConfined env db = elim (Bool-cases (is_virtual_set (get_set p db))) [
    | inl e ↦ rebuilt e (materialize_parent-TouchesOnly env db)
    | inr e ↦ untouched e (rw e refl)
  ]
