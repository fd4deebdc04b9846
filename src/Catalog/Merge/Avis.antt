-- ===== src/Catalog/Merge/Avis.antt =====
-- The raw UPDATE of user_tracks and the repointing after it keep a user's opinion (`avis`).
use diggy.Prelude.{
  ℕ, String, ◌≡◌, ◌≢◌, refl, sym, ap, ◌∙◌, Bool, true, false, ◌&&◌, Option, none, inl, inr, List,
  [], ◌∷◌, arith, ◌==◌, find?-any, update_where, or_else, Bool-cases,
}
use diggy.Catalog.Rows.{CatalogEntry, UserTrack, Db}
use diggy.Catalog.Repoint.{linked, repoint_composite}
use diggy.Catalog.Repoint.Links.{swept}
use diggy.Catalog.Keys.{user_tracks_link}
use diggy.Catalog.Merge.{done, avis_of, fill_avis, merge_catalog_entries}
use diggy.Catalog.Merge.Tables.{folded, AreDuplicates, merge-eq-folded, linked-fill_avis}

abbrev Table : Type 0
Table = List UserTrack

module _ (c l u : ℕ) (apart : c ≢ l) where
  avis-swept_taken :
      (all rows : Table)
      → linked user_tracks_link c u all ≡ true
      → avis_of c u (swept user_tracks_link c l apart all rows) ≡ avis_of c u rows
  unfolding avis_of
  avis-swept_taken all [] h = refl
  avis-swept_taken all (r ∷ rows) h = ground (arith, avis-swept_taken all rows h)

  avis-swept_free :
      (all rows : Table)
      → linked user_tracks_link c u all ≡ false
      → linked user_tracks_link c u rows ≡ false
      → avis_of c u (swept user_tracks_link c l apart all rows) ≡ avis_of l u rows
  unfolding avis_of
  avis-swept_free all [] h k = refl
  avis-swept_free all (r ∷ rows) h k = ground (arith, avis-swept_free all rows h)

  -- The UPDATE, over any test of the user and any value that fills an empty avis.
  module _ (owned : ℕ → Bool) (value : ℕ → Option String) where
    abbrev filled : Table → Table
    filled rows =
        update_where (λ r. r.catalog_id == c && owned r.user_id)
          (λ r. record r { avis = or_else r.avis (value r.user_id) }) rows

    avis-filled_loser : (rows : Table) → avis_of l u (filled rows) ≡ avis_of l u rows
    unfolding avis_of
    avis-filled_loser [] = refl
    avis-filled_loser (r ∷ rows) = ground (arith, avis-filled_loser rows)

    avis-filled_canonical :
        (rows : Table)
        → linked user_tracks_link c u rows ≡ true
        → (owned u ≡ false → value u ≡ none)
        → avis_of c u (filled rows) ≡ or_else (avis_of c u rows) (value u)
    unfolding avis_of
    avis-filled_canonical [] h k = cc
    avis-filled_canonical (r ∷ rows) h k = elim (Bool-cases (r.user_id == u)) [
      | inl same ↦
          let p : r.user_id ≡ u = ground arith in
          ground (arith, avis-filled_canonical rows, ap owned p, ap value p)
      | inr other ↦ ground (arith, avis-filled_canonical rows)
    ]

  avis_none :
      (d : ℕ) (rows : Table) → linked user_tracks_link d u rows ≡ false → avis_of d u rows ≡ none
  unfolding avis_of
  avis_none d rows h =
      rw (find?-any (λ r. r.catalog_id == d && r.user_id == u) rows h, avis_of) refl

  avis-repointed :
      (rows : Table)
      → avis_of c u (repoint_composite user_tracks_link c l (fill_avis c l rows))
        ≡ or_else (avis_of c u rows) (avis_of l u rows)
  unfolding repoint_composite fill_avis
  avis-repointed rows = elim (Bool-cases (linked user_tracks_link c u rows)) [
    | inl here ↦
        avis-swept_taken (fill_avis c l rows) (fill_avis c l rows)
          (linked-fill_avis c l c u rows ∙ here)
        ∙ avis-filled_canonical (λ v. linked user_tracks_link l v rows) (λ v. avis_of l v rows) rows
            here (avis_none l rows)
    | inr not_here ↦
        let free = linked-fill_avis c l c u rows ∙ not_here in
        avis-swept_free (fill_avis c l rows) (fill_avis c l rows) free free
        ∙ avis-filled_loser (λ v. linked user_tracks_link l v rows) (λ v. avis_of l v rows) rows
        ∙ ap (λ o. or_else o (avis_of l u rows)) (sym (avis_none c rows not_here))
  ]

-- The merge of two rows that exist keeps every user's avis: that on the canonical, or else that on
-- the loser, also where the user owned only the loser.
pub merge-avis :
    (c l : ℕ) (db : Db) (canonical loser : CatalogEntry)
    → AreDuplicates c l db canonical loser
    → (after : Db) × (merge_catalog_entries c l db ≡ done after)
      × ((u : ℕ)
          → avis_of c u after.user_tracks
            ≡ or_else (avis_of c u db.user_tracks) (avis_of l u db.user_tracks))
merge-avis c l db canonical loser h = (
  folded c l loser db,
  merge-eq-folded c l db canonical loser h,
  λ u. avis-repointed c l u h.apart db.user_tracks,
)
