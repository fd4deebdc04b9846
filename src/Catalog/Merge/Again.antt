-- ===== src/Catalog/Merge/Again.antt =====
-- When a merge changes nothing, when it is refused, and what a second one does.
use diggy.Prelude.{
  ℕ, ◌≡◌, ◌≢◌, subst, false, none, some, inl, inr, arith, ◌==◌, find?, find?-any, Bool-cases,
  Option-cases,
}
use diggy.Catalog.Rows.{CatalogEntry, Db}
use diggy.Catalog.Merge.{done, value_error, has_id, merge_catalog_entries}
use diggy.Catalog.Merge.Tables.{folded, AreDuplicates, merge-eq-folded}
use diggy.Catalog.Merge.Correct.{folded-Unreferenced}

merge_self : (c : ℕ) (db : Db) → merge_catalog_entries c c db ≡ done db
unfolding merge_catalog_entries
merge_self c db = ground arith

pub merge_gone :
    (c l : ℕ) (db : Db)
    → find? (has_id l) db.catalog ≡ none
    → merge_catalog_entries c l db ≡ done db
unfolding merge_catalog_entries
merge_gone c l db h = elim (Bool-cases (c == l)) [ inl e ↦ rw e | inr e ↦ rw (e, h) ]

merge_no_canonical :
    (c l : ℕ) (db : Db) (loser : CatalogEntry)
    → c ≢ l
    → find? (has_id l) db.catalog ≡ some loser
    → find? (has_id c) db.catalog ≡ none
    → merge_catalog_entries c l db ≡ value_error
unfolding merge_catalog_entries
merge_no_canonical c l db loser apart p q = let e : (c == l) ≡ false = ground arith in rw (e, p, q)

-- A merge that succeeded, run again, changes nothing.
pub merge_idempotent :
    (c l : ℕ) (db after : Db)
    → merge_catalog_entries c l db ≡ done after
    → merge_catalog_entries c l after ≡ done after
merge_idempotent c l db after h = elim (Bool-cases (c == l)) [
  | inl e ↦ let p : c ≡ l = ground arith in rw (← p) (merge_self c after)
  | inr e ↦ elim (Option-cases (find? (has_id l) db.catalog)) [
    | inl gone ↦
        let p : db ≡ after = cc (merge_gone c l db gone) in
        subst (λ d. merge_catalog_entries c l d ≡ done d) p (merge_gone c l db gone)
    | inr (loser, found) ↦
        let apart : c ≢ l = ground arith in
        elim (Option-cases (find? (has_id c) db.catalog)) [
          | inl missing ↦ cc (merge_no_canonical c l db loser apart found missing)
          | inr (canonical, kept) ↦
              let dup : AreDuplicates c l db canonical loser = record {
                apart = apart;
                loser_found = found;
                canonical_found = kept;
              } in
              let p : folded c l loser db ≡ after =
                cc (merge-eq-folded c l db canonical loser dup) in
              subst (λ d. merge_catalog_entries c l d ≡ done d) p
                (merge_gone c l (folded c l loser db) (
                  find?-any (has_id l) (folded c l loser db).catalog
                    (folded-Unreferenced c l db loser apart).catalog))
        ]
  ]
]
