-- ===== src/Artists/Names.antt =====
-- The names that an artist is found under after a merge.
use diggy.Prelude.{
  ℕ, String, ap, ◌≡◌, ◌≢◌, refl, ◌∙◌, Bool, true, false, not, ◌&&◌, ◌||◌, List, [], ◌∷◌, ◌++◌,
  arith, ◌==◌, str_eq, str_eq_iff, any, any-append, Bool-cases, inl, inr, update_where,
  delete_where, any-delete_where_disjoint,
}
use diggy.Artists.{
  Artist, ArtistAlias, ArtistDb, MergeReport, has_alias, is_alias, taken, move_aliases,
  ensure_alias, merged_aliases, merged, delete_artist, fold_artist, merge_artist_into,
}
use diggy.Artists.Moved.{AreTwins, merge-eq-fold_artist}

pub same_answer : (p : String → Bool) (n m : String) → str_eq n m ≡ true → p n ≡ p m
same_answer p n m h = ap p ((str_eq_iff n m).0 h)

module _ (source_id : ℕ) (target : Artist) (apart : target.id ≢ source_id) where
  -- `move_aliases` with any test for the names that are taken
  abbrev pub moved : (String → Bool) → List ArtistAlias → List ArtistAlias
  moved p rows =
      update_where (λ r. r.artist_id == source_id) (λ r. record r { artist_id = target.id })
        (delete_where (λ r. r.artist_id == source_id && p r.normalized_alias) rows)

  moved-alias :
      (p : String → Bool) (rows : List ArtistAlias) (n : String)
      → has_alias target.id n (moved p rows)
        ≡ has_alias target.id n rows || has_alias source_id n rows && not (p n)
  moved-alias p [] n = refl
  moved-alias p (r ∷ rows) n =
      let ih = moved-alias p rows n in
      let same = same_answer p r.normalized_alias n in
      elim (Bool-cases (r.artist_id == source_id)) [
        | inl own ↦ elim (Bool-cases (p r.normalized_alias)) [
          | inl gone ↦ rw (own, gone) (ground (arith, ih, same))
          | inr stays ↦ rw (own, stays, own) (ground (arith, ih, same))
        ]
        | inr other ↦ rw (other, other) (ground (arith, ih, same))
      ]

  moved-other :
      (p : String → Bool) (rows : List ArtistAlias) (a : ℕ) (n : String)
      → a ≢ target.id
      → a ≢ source_id
      → has_alias a n (moved p rows) ≡ has_alias a n rows
  moved-other p [] a n h k = refl
  moved-other p (r ∷ rows) a n h k = ground (arith, moved-other p rows a n h k)

  moved-unowned :
      (p : String → Bool) (rows : List ArtistAlias)
      → any (λ r. r.artist_id == source_id) (moved p rows) ≡ false
  moved-unowned p [] = refl
  moved-unowned p (r ∷ rows) = ground (arith, moved-unowned p rows)

  -- No name is new, and a unique name stays unique.
  pub moved-fresh :
      (p : String → Bool) (rows : List ArtistAlias) (n : String)
      → is_alias n rows ≡ false
      → is_alias n (moved p rows) ≡ false
  moved-fresh p [] n h = refl
  moved-fresh p (r ∷ rows) n h = ground (arith, moved-fresh p rows n)

  moved-is_alias :
      (p : String → Bool) (rows : List ArtistAlias) (n : String)
      → is_alias n rows ≡ true
      → is_alias n (moved p rows) || p n ≡ true
  moved-is_alias p [] n h = ground arith
  moved-is_alias p (r ∷ rows) n h =
      ground (arith, moved-is_alias p rows n, same_answer p r.normalized_alias n)

pub has_alias-is_alias :
    (a : ℕ) (n : String) (rows : List ArtistAlias)
    → has_alias a n rows ≡ true
    → is_alias n rows ≡ true
has_alias-is_alias a n [] h = ground arith
has_alias-is_alias a n (r ∷ rows) h = ground (arith, has_alias-is_alias a n rows)

-- The name that the merge adds to those of the two artists, if it adds one.
abbrev pub is_added : (String → String) → Artist → Artist → List ArtistAlias → String → Bool
is_added normalize source target rows n =
    not (str_eq (normalize source.name) (normalize target.name))
    && not (str_eq (normalize source.name) "")
    && not (is_alias (normalize source.name) rows)
    && str_eq (normalize source.name) n

module _ (normalize : String → String) (source target : Artist)
    (apart : target.id ≢ source.id) where
  taken-move_aliases :
      (rows : List ArtistAlias) (n : String)
      → taken target (move_aliases source.id target rows) n
        ≡ taken target rows n || has_alias source.id n rows
  unfolding move_aliases
  taken-move_aliases rows n =
      ground (arith, moved-alias source.id target apart (taken target rows) rows n)

  is_alias-move_aliases :
      (rows : List ArtistAlias) (n : String)
      → is_alias n rows ≡ true
      → str_eq target.normalized_name n || is_alias n (move_aliases source.id target rows) ≡ true
  unfolding move_aliases
  is_alias-move_aliases rows n h = ground (
    arith,
    moved-is_alias source.id target apart (taken target rows) rows n h,
    moved-alias source.id target apart (taken target rows) rows n,
    has_alias-is_alias target.id n (moved source.id target apart (taken target rows) rows),
  )

  is_alias-move_aliases_fresh :
      (rows : List ArtistAlias) (n : String)
      → is_alias n rows ≡ false
      → is_alias n (move_aliases source.id target rows) ≡ false
  unfolding move_aliases
  is_alias-move_aliases_fresh rows n h =
      moved-fresh source.id target apart (taken target rows) rows n h

  taken-append :
      (rows : List ArtistAlias) (m n : String)
      → taken target
          (rows
            ++ (record { artist_id = target.id; alias = source.name; normalized_alias = m } ∷ []))
          n
        ≡ taken target rows n || str_eq m n
  taken-append rows m n =
      let new : ArtistAlias = record {
        artist_id = target.id;
        alias = source.name;
        normalized_alias = m;
      } in
      ground (
        arith,
        any-append (λ r. r.artist_id == target.id && str_eq r.normalized_alias n) rows (new ∷ []),
      )

  taken-merged_aliases :
      (rows : List ArtistAlias) (n : String)
      → taken target (merged_aliases normalize source target rows) n
        ≡ taken target rows n
          || has_alias source.id n rows
          || is_added normalize source target rows n
  unfolding merged_aliases ensure_alias
  taken-merged_aliases rows n =
      let m = normalize source.name in
      let after = move_aliases source.id target rows in
      ground (
        arith,
        taken-move_aliases rows n,
        taken-append after m n,
        is_alias-move_aliases rows m,
        is_alias-move_aliases_fresh rows m,
        same_answer (taken target rows) m n,
        same_answer (λ k. is_alias k rows) m n,
      )

module _ (normalize : String → String) (source target : Artist) (db : ArtistDb) where
  -- The merge of two artists that exist succeeds, and the target then has exactly these names, by
  -- its own or by an alias: those of either artist by an alias, its own, and the source's own
  -- spelling if it is not empty, differs from the target's, and was no alias of any artist.
  pub merge_artist_into-taken :
      AreTwins source target db
      → (after : ArtistDb) × (report : MergeReport) × (merge_artist_into normalize source.id
            target.id db
          ≡ merged after report)
        × ((n : String)
            → taken target after.artist_aliases n
              ≡ taken target db.artist_aliases n
                || has_alias source.id n db.artist_aliases
                || is_added normalize source target db.artist_aliases n)
  unfolding fold_artist delete_artist
  merge_artist_into-taken h =
      let apart = h.apart in
      (
        fold_artist normalize source target db,
        record { merged_source = source.id; into = target.id; name = source.name },
        merge-eq-fold_artist normalize source target db h,
        λ n.
            ap (λ b. str_eq target.normalized_name n || b)
              (any-delete_where_disjoint (λ r. r.artist_id == source.id)
                (λ r. r.artist_id == target.id && str_eq r.normalized_alias n)
                (merged_aliases normalize source target db.artist_aliases) (λ x e. ground arith))
            ∙ taken-merged_aliases normalize source target apart db.artist_aliases n,
      )
