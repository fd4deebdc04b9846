-- ===== src/Catalog/Dedup/Guard.antt =====
-- What the guard does with a row whose platform id is taken.
use diggy.Prelude.{
  ℕ, String, ◌≡◌, ◌≢◌, refl, ◌∙◌, sym, ap, subst, Bool, true, false, ◌&&◌, Option, none, some, List,
  [], ◌∷◌, arith, any, filter, find?, find?-eq-some, find?-eq-none, All, All-any, All-both,
  All-filter, All-filter_self, Bool-cases, Option-cases, inl, inr,
}
use diggy.Prelude.Sort.{sort_by, any-sort_by, All-sort_by}
use diggy.Catalog.Rows.{CatalogEntry, Db}
use diggy.Catalog.Merge.{Outcome, done, has_id, merge_catalog_entries}
use diggy.Catalog.Merge.Tables.{AreDuplicates}
use diggy.Catalog.Merge.Correct.{Unreferenced, KeepsLinks, merge-Unreferenced, merge-KeepsLinks}
use diggy.Catalog.Dedup.{
  same_track, id_le, is_holder, holders, Fold, left_apart, folded, fold_into,
  fold_if_platform_id_taken,
}

any-filter {ℓ} :
    {A : Type ℓ} (p q : A → Bool) (xs : List A) → any p (filter q xs) ≡ any (λ x. q x && p x) xs
any-filter p q [] = refl
any-filter p q (x ∷ xs) = ground (arith, any-filter p q xs)

All-find? {ℓ} :
    {A : Type 0} (P : A → Type ℓ) (q : A → Bool) (xs : List A) (x : A)
    → All P xs
    → find? q xs ≡ some x
    → P x
All-find? P q [] x h e = ground arith
All-find? P q (y ∷ ys) x (h, hs) e = elim (Bool-cases (q y)) [
  | inl k ↦ let same : y ≡ x = ground arith in subst P same h
  | inr k ↦ All-find? P q ys x hs (ground arith)
]

abbrev db_of : Db → Outcome → Db
db_of db (done after) = after
db_of db _ = db

-- ids are a key of the catalog: each row is the one that its id finds
abbrev pub HasUniqueIds : Db → Type 0
HasUniqueIds db = All (λ e. find? (has_id e.id) db.catalog ≡ some e) db.catalog

-- The row was folded into another that holds the platform id and is the same recording.
pub record IsFolded (normalize_track_title : String → String) (field : CatalogEntry → Option String)
    (entry : CatalogEntry) (value : String) (db : Db) (c : ℕ) (outcome : Outcome) : Type 0 where
  pub holder : CatalogEntry
  pub found : find? (has_id c) db.catalog ≡ some holder
  pub holds : is_holder field value entry holder ≡ true
  pub same : same_track normalize_track_title entry holder ≡ true
  pub after : Db
  pub merged : outcome ≡ done after
  pub unreferenced : Unreferenced entry.id after
  pub keeps_links : KeepsLinks c entry.id db after

-- both ways the guard can end
abbrev pub IsGuarded :
    (String → String) → (CatalogEntry → Option String) → CatalogEntry → String → Db → Fold → Type 0
IsGuarded normalize field entry value db left_apart =
    All (λ h. (is_holder field value entry h && same_track normalize entry h) ≡ false) db.catalog
IsGuarded normalize field entry value db (folded c outcome) =
    IsFolded normalize field entry value db c outcome

module _ (normalize : String → String) (field : CatalogEntry → Option String) (entry : CatalogEntry)
    (value : String) (db : Db) where
  no_same_holder :
      find? (same_track normalize entry) (holders field value entry db) ≡ none
      → All
          (λ h. (is_holder field value entry h && same_track normalize entry h) ≡ false)
          db.catalog
  unfolding holders
  no_same_holder e =
      let q = is_holder field value entry in
      All-any (λ h. q h && same_track normalize entry h) db.catalog
        (sym (any-filter (same_track normalize entry) q db.catalog)
          ∙ sym (any-sort_by id_le (same_track normalize entry) (filter q db.catalog))
          ∙ find?-eq-none (same_track normalize entry) (sort_by id_le (filter q db.catalog)) e)

  holders-found :
      HasUniqueIds db
      → All
          (λ h. (find? (has_id h.id) db.catalog ≡ some h) × (is_holder field value entry h ≡ true))
          (holders field value entry db)
  unfolding holders
  holders-found u =
      let q = is_holder field value entry in
      All-sort_by id_le _ (filter q db.catalog) (
        All-both (λ h. find? (has_id h.id) db.catalog ≡ some h) (λ h. q h ≡ true)
          (filter q db.catalog)
          (All-filter (λ h. find? (has_id h.id) db.catalog ≡ some h) q db.catalog u)
          (All-filter_self q db.catalog))

  fold_into-IsFolded :
      (holder : CatalogEntry)
      → HasUniqueIds db
      → find? (has_id entry.id) db.catalog ≡ some entry
      → find? (same_track normalize entry) (holders field value entry db) ≡ some holder
      → IsFolded normalize field entry value db holder.id
          (merge_catalog_entries holder.id entry.id db)
  fold_into-IsFolded holder u here e =
      let p =
        All-find?
          (λ h. (find? (has_id h.id) db.catalog ≡ some h) × (is_holder field value entry h ≡ true))
          (same_track normalize entry) (holders field value entry db) holder (holders-found u) e in
      let apart : holder.id ≢ entry.id = ground (arith, p.1) in
      let two : AreDuplicates holder.id entry.id db holder entry = record {
        apart = apart;
        loser_found = here;
        canonical_found = p.0;
      } in
      let gone = merge-Unreferenced holder.id entry.id db holder entry two in
      let links = merge-KeepsLinks holder.id entry.id db holder entry two in
      let same_after = ap (db_of gone.0) (sym links.1 ∙ gone.1) in
      record {
        holder = holder;
        found = p.0;
        holds = p.1;
        same = find?-eq-some (same_track normalize entry) (holders field value entry db) holder e;
        after = gone.0;
        merged = gone.1;
        unreferenced = gone.2;
        keeps_links = subst (KeepsLinks holder.id entry.id db) same_after links.2;
      }

  -- Where ids are unique and the row is in the catalog, the guard leaves it apart only if no other
  -- row with the platform id is the same recording; else the row is folded into such a one, and
  -- the merge succeeds, leaves nothing that refers to the row, and carries the row's links over in
  -- the five tables that it repoints with a key and the three of plain references. Links to albums
  -- and embeddings are not part of this.
  pub fold_if_platform_id_taken-IsGuarded :
      HasUniqueIds db
      → find? (has_id entry.id) db.catalog ≡ some entry
      → IsGuarded normalize field entry value db
          (fold_if_platform_id_taken normalize field entry value db)
  unfolding fold_if_platform_id_taken
  fold_if_platform_id_taken-IsGuarded u here =
      elim (Option-cases (find? (same_track normalize entry) (holders field value entry db))) [
        | inl e ↦
            subst (λ o. IsGuarded normalize field entry value db (fold_into entry o db)) (sym e)
              (no_same_holder e)
        | inr (holder, e) ↦
            subst (λ o. IsGuarded normalize field entry value db (fold_into entry o db)) (sym e)
              (fold_into-IsFolded holder u here e)
      ]
