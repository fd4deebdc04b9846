-- ===== src/Catalog/Repoint.antt =====
-- `_repoint_composite` and `_repoint_simple` of server/workers/catalog_merge.py, the same two
-- statements as they are written out there for collection_items and user_opinions, and as
-- `_reassign_artist_links` of server/workers/artist_merge.py.
pub mod Links
use diggy.Prelude.{
  ℕ, ◌≡◌, Bool, true, ◌&&◌, Option, none, some, List, ◌==◌, any, delete_where, update_where,
}
use diggy.Catalog.Rows.{Reference}

-- A table in which a row belongs to at most one owner, the id that a merge rewrites, and holds one
-- row for each owner and `other`.
pub record Linked (R : Type 0) : Type 0 where
  pub owns : ℕ → R → Bool
  pub other : R → ℕ
  pub set_owner : R → ℕ → R
  pub owns_one : (r : R) (c d : ℕ) → owns c r ≡ true → owns d r ≡ (c == d)
  pub owns_set : (r : R) (l c d : ℕ) → owns l r ≡ true → owns d (set_owner r c) ≡ (c == d)
  pub other_set : (r : R) (c : ℕ) → other (set_owner r c) ≡ other r

module _ {R : Type 0} (t : Linked R) where
  -- SELECT 1 FROM rows WHERE owner = c AND other = o
  abbrev pub linked : ℕ → ℕ → List R → Bool
  linked c o rows = any (λ r. t.owns c r && t.other r == o) rows

  -- The DELETE drops the loser's rows whose `other` the canonical has; the UPDATE moves the rest.
  unfoldable pub repoint_composite : ℕ → ℕ → List R → List R
  repoint_composite canonical loser rows =
      update_where (t.owns loser) (λ r. t.set_owner r canonical)
        (delete_where (λ r. t.owns loser r && linked canonical (t.other r) rows) rows)

abbrev pub refers : ℕ → Reference → Bool
refers c r = elim r.catalog_id [ none ↦ Bool.false | some i ↦ i == c ]

unfoldable pub repoint_simple : ℕ → ℕ → List Reference → List Reference
repoint_simple canonical loser rows =
    update_where (refers loser) (λ r. record r { catalog_id = some canonical }) rows
