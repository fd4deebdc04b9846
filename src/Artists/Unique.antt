-- ===== src/Artists/Unique.antt =====
-- A merge of two artists keeps the aliases unique, as the UNIQUE constraint on normalized_alias
-- asks.
use diggy.Prelude.{
  ℕ, String, ◌≡◌, ◌≢◌, ◌∙◌, Bool, false, ◌||◌, List, [], ◌∷◌, ◌++◌, arith, ◌==◌, str_eq, str_eq_iff,
  sym, refl, any-append, any-delete_where, Bool-cases, inl, inr, delete_where,
}
use diggy.Artists.{
  Artist, ArtistAlias, ArtistDb, MergeReport, is_alias, taken, move_aliases, ensure_alias,
  merged_aliases, merged, delete_artist, fold_artist, merge_artist_into,
}
use diggy.Artists.Moved.{AreTwins, merge-eq-fold_artist}
use diggy.Artists.Names.{moved, moved-fresh}

abbrev pub HasUniqueAliases : List ArtistAlias → Type 0
HasUniqueAliases [] = Unit
HasUniqueAliases (r ∷ rows) = (is_alias r.normalized_alias rows ≡ false) × HasUniqueAliases rows

HasUniqueAliases-delete_where :
    (p : ArtistAlias → Bool) (rows : List ArtistAlias)
    → HasUniqueAliases rows
    → HasUniqueAliases (delete_where p rows)
HasUniqueAliases-delete_where p [] u = tt
HasUniqueAliases-delete_where p (r ∷ rows) (fresh, u) =
    let ih = HasUniqueAliases-delete_where p rows u in
    elim (Bool-cases (p r)) [
      | inl gone ↦ rw gone ih
      | inr kept ↦
          rw kept
            (any-delete_where p (λ q. str_eq q.normalized_alias r.normalized_alias) rows fresh, ih)
    ]

differ_comm : (a b : String) → str_eq a b ≡ false → str_eq b a ≡ false
differ_comm a b h = elim (Bool-cases (str_eq b a)) [
  | inl e ↦ let back = (str_eq_iff a b).1 (sym ((str_eq_iff b a).0 e)) in ground (arith, h, back)
  | inr e ↦ e
]

HasUniqueAliases-append :
    (rows : List ArtistAlias) (new : ArtistAlias)
    → HasUniqueAliases rows
    → is_alias new.normalized_alias rows ≡ false
    → HasUniqueAliases (rows ++ (new ∷ []))
HasUniqueAliases-append [] new u fresh = (refl, tt)
HasUniqueAliases-append (r ∷ rows) new (f, u) fresh = (
  any-append (λ q. str_eq q.normalized_alias r.normalized_alias) rows (new ∷ [])
      ∙ ground (arith, f, differ_comm r.normalized_alias new.normalized_alias (ground arith)),
  HasUniqueAliases-append rows new u (ground arith),
)

module _ (source_id : ℕ) (target : Artist) (apart : target.id ≢ source_id) where
  moved-HasUniqueAliases :
      (p : String → Bool) (rows : List ArtistAlias)
      → HasUniqueAliases rows
      → HasUniqueAliases (moved source_id target apart p rows)
  moved-HasUniqueAliases p [] u = tt
  moved-HasUniqueAliases p (r ∷ rows) (fresh, u) =
      let ih = moved-HasUniqueAliases p rows u in
      let still = moved-fresh source_id target apart p rows r.normalized_alias fresh in
      elim (Bool-cases (r.artist_id == source_id)) [
        | inl own ↦ elim (Bool-cases (p r.normalized_alias)) [
          | inl gone ↦ rw (own, gone) ih
          | inr stays ↦ rw (own, stays, own) (still, ih)
        ]
        | inr other ↦ rw (other, other) (still, ih)
      ]

module _ (normalize : String → String) (source target : Artist) (db : ArtistDb) where
  merged_aliases-HasUniqueAliases :
      target.id ≢ source.id
      → (rows : List ArtistAlias) → HasUniqueAliases rows
      → HasUniqueAliases (merged_aliases normalize source target rows)
  unfolding merged_aliases move_aliases ensure_alias
  merged_aliases-HasUniqueAliases apart rows u =
      let m = normalize source.name in
      let after = moved source.id target apart (taken target rows) rows in
      let ok = moved-HasUniqueAliases source.id target apart (taken target rows) rows u in
      elim (Bool-cases (str_eq m (normalize target.name))) [
        | inl same ↦ rw same ok
        | inr differ ↦ elim (Bool-cases (str_eq m "" || is_alias m after)) [
          | inl old ↦ rw (differ, old) ok
          | inr new ↦ rw (differ, new) (HasUniqueAliases-append after _ ok (ground arith))
        ]
      ]

  -- The merge of two artists that exist succeeds and, where no two aliases had the same normalized
  -- form, leaves none that have.
  pub merge_artist_into-HasUniqueAliases :
      AreTwins source target db
      → HasUniqueAliases db.artist_aliases
      → (after : ArtistDb) × (report : MergeReport) × (merge_artist_into normalize source.id
            target.id db
          ≡ merged after report)
        × HasUniqueAliases after.artist_aliases
  unfolding fold_artist delete_artist
  merge_artist_into-HasUniqueAliases h u = (
    fold_artist normalize source target db,
    record { merged_source = source.id; into = target.id; name = source.name },
    merge-eq-fold_artist normalize source target db h,
    HasUniqueAliases-delete_where (λ r. r.artist_id == source.id)
        (merged_aliases normalize source target db.artist_aliases)
        (merged_aliases-HasUniqueAliases h.apart db.artist_aliases u),
  )
