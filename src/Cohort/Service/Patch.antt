-- ===== src/Cohort/Service/Patch.antt =====
-- What a PATCH of the overrides of an artist does.
use diggy.Prelude.{
  ℕ, ◌≡◌, ◌≢◌, refl, ap, sym, subst, ◌∙◌, true, ◌||◌, Option, none, some, List, [], ◌∷◌, arith,
  ◌==◌, any, get_or, is_some, if◌then◌else◌,
}
use diggy.Cohort.Rows.{ArtistCohort}
use diggy.Cohort.Recompute.Upsert.{row_of}
use diggy.Cohort.Service.{
  effective_tier, Changes, bare_row, apply_changes, put, overridden, set_override,
}

row_of-put :
    (row : ArtistCohort) (rows : List ArtistCohort) → row_of row.artist_id (put row rows) ≡ some row
row_of-put row [] = ground arith
row_of-put row (r ∷ rows) = ground (arith, row_of-put row rows)

row_of-put_other :
    (row : ArtistCohort) (rows : List ArtistCohort) (aid : ℕ)
    → row.artist_id ≢ aid
    → row_of aid (put row rows) ≡ row_of aid rows
row_of-put_other row [] aid h = ground arith
row_of-put_other row (r ∷ rows) aid h = ground (arith, row_of-put_other row rows aid h)

own_row :
    (now aid : ℕ) (rows : List ArtistCohort)
    → (get_or (row_of aid rows) (bare_row now aid)).artist_id ≡ aid
own_row now aid [] = refl
own_row now aid (r ∷ rows) = ground (arith, own_row now aid rows)

effective_tier_again :
    (row : ArtistCohort) (changes : Changes)
    → (apply_changes changes row).tier ≡ effective_tier (apply_changes changes row)
unfolding apply_changes effective_tier
effective_tier_again row changes = ground arith

same_row :
    (row : ArtistCohort) (o : Option ℕ) (n : ℕ)
    → o ≡ row.forced_tier
    → n ≡ row.tier
    → (record row { forced_tier = o; tier = n }) ≡ row
same_row row o n p q =
    ap (λ m. record row { forced_tier = o; tier = m }) q
    ∙ ap (λ f. record row { forced_tier = f }) p

-- The override of an artist that exists is written on its row, or on a new one if it has none; the
-- row that is returned is the row in the table; a field that the request leaves out is as before,
-- the tier is the effective one of the new row, and no other artist's row changes.
pub set_override-row :
    (artists : List ℕ) (now aid : ℕ) (changes : Changes) (rows : List ArtistCohort)
    → any (λ i. i == aid) artists ≡ true
    → let before = get_or (row_of aid rows) (bare_row now aid) in
      (after : ArtistCohort) × (table : List ArtistCohort) × (set_override artists now aid changes
          rows
        ≡ overridden after table)
      × (row_of aid table ≡ some after)
      × ((other : ℕ) → other ≢ aid → row_of other table ≡ row_of other rows)
      × (after.tier ≡ effective_tier after)
      × (changes.pinned ≡ none → after.pinned ≡ before.pinned)
      × (changes.excluded ≡ none → after.excluded ≡ before.excluded)
      × (changes.forced_tier ≡ none → after.forced_tier ≡ before.forced_tier)
unfolding set_override apply_changes
set_override-row artists now aid changes rows known =
    let before = get_or (row_of aid rows) (bare_row now aid) in
    let after = apply_changes changes before in
    let p : after.artist_id ≡ aid = own_row now aid rows in
    (
      after,
      put after rows,
      rw known refl,
      subst (λ a. row_of a (put after rows) ≡ some after) p (row_of-put after rows),
      λ other h. row_of-put_other after rows other (λ q. h (sym q ∙ p)),
      effective_tier_again before changes,
      λ e. rw e refl,
      λ e. rw e refl,
      λ e. rw e refl,
    )

-- Forcing a tier and then clearing the force gives the row back, if it was in its effective tier
-- and this came from the signals or from a pin.
pub clear_force-restores :
    (row : ArtistCohort) (f : ℕ)
    → row.forced_tier ≡ none
    → row.tier ≡ effective_tier row
    → is_some row.computed_tier || row.pinned ≡ true
    → let force : Changes = record {
      pinned = none;
      excluded = none;
      forced_tier = some (some f);
    } in
      let clear : Changes = record { pinned = none; excluded = none; forced_tier = some none } in
      apply_changes clear (apply_changes force row) ≡ row
unfolding apply_changes effective_tier
clear_force-restores row f h k auto =
    let tier : (elim row.computed_tier [ some c ↦ c | none ↦ if row.pinned then 1 else f ])
        ≡ row.tier =
      ground arith in
    same_row row none _ (sym h) tier
