-- ===== src/Catalog/Dedup.antt =====
-- The guard of the enrichment (server/workers/catalog_dedup.py) and `same_track` of
-- server/workers/catalog_merge.py. `normalize_track_title` is a parameter.
pub mod Guard
pub mod Tests
use diggy.Prelude.{
  ℕ, String, Bool, true, false, not, ◌&&◌, Option, none, some, List, leb, ◌==◌, str_eq,
  if◌then◌else◌, filter, find?,
}
use diggy.Prelude.Sort.{sort_by}
use diggy.Catalog.Rows.{CatalogEntry, Db, truthy}
use diggy.Catalog.Merge.{Outcome, merge_catalog_entries}

-- a column that holds this text
abbrev pub is_value : Option String → String → Bool
is_value none value = false
is_value (some v) value = str_eq v value

abbrev same_value : Option String → Option String → Bool
same_value none none = true
same_value (some a) (some b) = str_eq a b
same_value _ _ = false

unfoldable pub same_track : (String → String) → CatalogEntry → CatalogEntry → Bool
same_track normalize_track_title a b =
    if truthy a.isrc && truthy b.isrc
    then same_value a.isrc b.isrc
    else str_eq (normalize_track_title a.title) (normalize_track_title b.title)

abbrev id_le : CatalogEntry → CatalogEntry → Bool
id_le a b = leb a.id b.id

-- another row that has the platform id already; `field` reads deezer_id or beatport_id
abbrev pub is_holder : (CatalogEntry → Option String) → String → CatalogEntry → CatalogEntry → Bool
is_holder field value entry h = is_value (field h) value && not (h.id == entry.id)

unfoldable pub holders :
    (CatalogEntry → Option String) → String → CatalogEntry → Db → List CatalogEntry
holders field value entry db = sort_by id_le (filter (is_holder field value entry) db.catalog)

-- `folded` is CatalogEntryMerged with the id of the canonical row, after the merge
pub data Fold : Type 0 where
  left_apart : Fold
  folded : ℕ → Outcome → Fold

abbrev pub fold_into : CatalogEntry → Option CatalogEntry → Db → Fold
fold_into entry none db = left_apart
fold_into entry (some holder) db = folded holder.id (merge_catalog_entries holder.id entry.id db)

unfoldable pub fold_if_platform_id_taken :
    (String → String) → (CatalogEntry → Option String) → CatalogEntry → String → Db → Fold
fold_if_platform_id_taken normalize_track_title field entry value db =
    fold_into entry (find? (same_track normalize_track_title entry) (holders field value entry db))
      db
