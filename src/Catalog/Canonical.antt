-- ===== src/Catalog/Canonical.antt =====
-- The row to keep among duplicates: `_completeness`, `_canonical_sort_key` and `pick_canonical` of
-- server/workers/catalog_merge.py.
pub mod Least
mod Tests
use diggy.Prelude.{
  ℕ, ◌+◌, ◌≡◌, Bool, ◌&&◌, ◌||◌, Option, none, some, List, [], ◌∷◌, ltb, ◌==◌, if◌then◌else◌,
  is_some, get_or,
}
use diggy.Catalog.Rows.{CatalogEntry, truthy}

abbrev pub one_if : Bool → ℕ
one_if b = if b then 1 else 0

unfoldable pub completeness : CatalogEntry → ℕ
completeness e =
    one_if (is_some e.bpm)
    + one_if (is_some e.key)
    + one_if (is_some e.duration_ms)
    + one_if (is_some e.label)
    + one_if (is_some e.release_date)
    + one_if e.has_artwork
    + one_if e.has_preview

-- `created` is the pair (0, created_at), or (1, 0) where created_at is NULL
pub record SortKey : Type 0 where
  pub no_isrc : ℕ
  pub no_date : ℕ
  pub created : ℕ
  pub complete : ℕ
  pub id : ℕ

unfoldable pub canonical_sort_key : CatalogEntry → SortKey
canonical_sort_key e = record {
  no_isrc = if truthy e.isrc then 0 else 1;
  no_date = if is_some e.created_at then 0 else 1;
  created = get_or e.created_at 0;
  complete = completeness e;
  id = e.id;
}

-- The order of Python's tuples. The code stores minus `complete`, so a larger one comes first.
unfoldable pub key_lt : SortKey → SortKey → Bool
key_lt a b =
    ltb a.no_isrc b.no_isrc
    || (a.no_isrc == b.no_isrc
        && (ltb a.no_date b.no_date
            || (a.no_date == b.no_date
                && (ltb a.created b.created
                    || (a.created == b.created
                        && (ltb b.complete a.complete
                            || (a.complete == b.complete && ltb a.id b.id)))))))

-- `min(entries, key=…)` keeps the first of the least
pub least_from : CatalogEntry → List CatalogEntry → CatalogEntry
least_from best [] = best
least_from best (e ∷ es) =
    least_from (if key_lt (canonical_sort_key e) (canonical_sort_key best) then e else best) es

-- `none` is the ValueError on an empty list
unfoldable pub pick_canonical : List CatalogEntry → Option CatalogEntry
pick_canonical [] = none
pick_canonical (e ∷ es) = some (least_from e es)
