-- ===== src/Cohort/Recompute/Flush.antt =====
-- The flush at the end of `recompute_cohort`, where the foreign key of artist_cohort to the artists
-- is checked.
use diggy.Prelude.{
  ℕ, ◌≡◌, refl, ◌∙◌, sym, ap, subst, Bool, true, false, not, ◌&&◌, Option, none, some, List, [],
  ◌∷◌, arith, Bool-cases, Option-cases, inl, inr, if◌then◌else◌, is_some, any, find?, find?-eq-some,
  find?-eq-none, mem, ==_iff,
}
use diggy.Cohort.Rows.{SignalTables, ArtistCohort}
use diggy.Cohort.Tier.{compute_tier}
use diggy.Cohort.Signals.{signals_of}
use diggy.Cohort.Recompute.{Recomputed, recompute_cohort}
use diggy.Cohort.Recompute.Upsert.{is_of, row_of, HasOneRowEach}
use diggy.Cohort.Recompute.Spec.{next_row, recompute_cohort-next_row}

-- a row that was not there before and whose artist is none of `artist_ids`
abbrev pub is_refused : List ℕ → List ArtistCohort → ArtistCohort → Bool
is_refused artist_ids existing row =
    not (is_some (row_of row.artist_id existing)) && not (mem row.artist_id artist_ids)

-- `session.flush()`: an INSERT whose artist is not in the table of artists raises an
-- IntegrityError, here `none`.
unfoldable pub flush_cohort : List ℕ → List ArtistCohort → Recomputed → Option Recomputed
flush_cohort artist_ids existing r =
    if any (is_refused artist_ids existing) r.rows then none else some r

-- The recompute with the artists that there are.
unfoldable pub recompute_with_artists :
    List ℕ → SignalTables → ℕ → List ArtistCohort → Option Recomputed
recompute_with_artists artist_ids t now existing =
    flush_cohort artist_ids existing (recompute_cohort t now existing)

any_found {ℓ} :
    {A : Type ℓ} (p : A → Bool) (xs : List A) → any p xs ≡ true → (x : A) × (find? p xs ≡ some x)
any_found p xs h = elim (Option-cases (find? p xs)) [
  | inl e ↦ let k = find?-eq-none p xs e in ground (arith, h)
  | inr (x, e) ↦ (x, e)
]

found_any {ℓ} :
    {A : Type ℓ} (p q : A → Bool) (xs : List A) (x : A)
    → find? p xs ≡ some x
    → q x ≡ true
    → any q xs ≡ true
found_any p q [] x h k = ground arith
found_any p q (y ∷ xs) x h k = ground (arith, found_any p q xs x)

is_none {ℓ} : {A : Type ℓ} (o : Option A) → is_some o ≡ false → o ≡ none
is_none none h = refl
is_none (some x) h = ground arith

module _ (t : SignalTables) (now : ℕ) (artist_ids : List ℕ) (existing : List ArtistCohort) where
  -- the artist `aid` qualifies, has no row yet, and is not in the table of artists
  abbrev pub is_missing : ℕ → Bool
  is_missing aid =
      is_some (compute_tier (signals_of t now aid))
      && not (is_some (row_of aid existing))
      && not (mem aid artist_ids)

  -- The recompute is refused because of an artist that is missing, or none is and it succeeds.
  pub data IsFlushed : Option Recomputed → Type 0 where
    refused : (aid : ℕ) → is_missing aid ≡ true → IsFlushed none
    accepted :
        ((aid : ℕ) → is_missing aid ≡ false) → IsFlushed (some (recompute_cohort t now existing))

  next_row-new :
      (aid : ℕ)
      → row_of aid existing ≡ none
      → is_some (next_row t now aid (row_of aid existing))
        ≡ is_some (compute_tier (signals_of t now aid))
  unfolding next_row
  next_row-new aid e = elim (Option-cases (compute_tier (signals_of t now aid))) [
    | inl f ↦ rw (e, f) refl
    | inr (ct, f) ↦ rw (e, f) refl
  ]

  refused-is_missing :
      (row : ArtistCohort)
      → HasOneRowEach existing
      → find? (is_refused artist_ids existing) (recompute_cohort t now existing).rows ≡ some row
      → is_missing row.artist_id ≡ true
  refused-is_missing row u h =
      let aid = row.artist_id in
      let rows = (recompute_cohort t now existing).rows in
      let bad = find?-eq-some (is_refused artist_ids existing) rows row h in
      let itself : is_of aid row ≡ true = ground arith in
      let (x, e) =
        any_found (is_of aid) rows
          (found_any (is_refused artist_ids existing) (is_of aid) rows row h itself) in
      let before : row_of aid existing ≡ none =
        is_none (row_of aid existing) (ground (arith, bad)) in
      let tier : is_some (compute_tier (signals_of t now aid)) ≡ true =
        sym (next_row-new aid before)
        ∙ ap is_some (sym (recompute_cohort-next_row t now existing aid u).0)
        ∙ ap is_some e in
      ground (arith, tier, bad)

  missing-refused :
      (aid : ℕ)
      → HasOneRowEach existing
      → is_missing aid ≡ true
      → any (is_refused artist_ids existing) (recompute_cohort t now existing).rows ≡ true
  missing-refused aid u h =
      let rows = (recompute_cohort t now existing).rows in
      let before : row_of aid existing ≡ none = is_none (row_of aid existing) (ground (arith, h)) in
      let there : is_some (row_of aid rows) ≡ true =
        ap is_some (recompute_cohort-next_row t now existing aid u).0
        ∙ next_row-new aid before
        ∙ ground (arith, h) in
      elim (Option-cases (row_of aid rows)) [
        | inl e ↦ ground (arith, e, there)
        | inr (x, e) ↦
            let same : x.artist_id ≡ aid =
              (==_iff x.artist_id aid).0 (find?-eq-some (is_of aid) rows x e) in
            found_any (is_of aid) (is_refused artist_ids existing) rows x e (
              subst (λ a. (not (is_some (row_of a existing)) && not (mem a artist_ids)) ≡ true)
                (sym same) (ground (arith, h)))
      ]

  -- Where every artist has one row at most, the recompute raises exactly where an artist qualifies
  -- that has no row and is not in the table of artists; else it returns the rows and statistics.
  pub recompute_with_artists-IsFlushed :
      HasOneRowEach existing → IsFlushed (recompute_with_artists artist_ids t now existing)
  unfolding recompute_with_artists flush_cohort
  recompute_with_artists-IsFlushed u =
      let rows = (recompute_cohort t now existing).rows in
      elim (Bool-cases (any (is_refused artist_ids existing) rows)) [
        | inl e ↦
            let (row, f) = any_found (is_refused artist_ids existing) rows e in
            rw e (refused row.artist_id (refused-is_missing row u f))
        | inr e ↦ rw e (
            accepted (λ aid. elim (Bool-cases (is_missing aid)) [
              | inl m ↦ let k = missing-refused aid u m in ground (arith, e, k)
              | inr m ↦ m
            ]))
      ]
