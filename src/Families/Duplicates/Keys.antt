-- ===== src/Families/Duplicates/Keys.antt =====
-- The second pass leaves one track for each key that is not blank, loses no key, and keeps every
-- track whose key is blank.
use diggy.Prelude.{
  ◌+◌, ◌≤◌, ◌≡◌, refl, ◌∙◌, Bool, true, false, not, ◌&&◌, ◌||◌, List, [], ◌∷◌, ◌++◌, arith, is_some,
  any, count, any-append, count-append, count-zero, Bool-cases, inl, inr, All, All-append,
  if◌then◌else◌,
}
use diggy.Prelude.Text.{Text, text_eq_iff}
use diggy.Families.Rows.{Track, Env}
use diggy.Families.Parts.{track_key, is_blank}
use diggy.Families.Duplicates.{has_key, put_key, by_key}
use diggy.Families.Duplicates.Passes.{IsOnce}

any_of_count : (p : Track → Bool) (ts : List Track) → count p ts ≤ 0 → any p ts ≡ false
any_of_count p [] h = refl
any_of_count p (t ∷ ts) h = ground (arith, any_of_count p ts)

module _ (env : Env) where
  -- The two tests of a track read its key alone.
  same_tests :
      (k : Text) (t u : Track)
      → has_key env k u ≡ true
      → track_key env t ≡ k
      → (j : Text) → has_key env j t ≡ has_key env j u
  same_tests k t u h e j =
      let p : track_key env u ≡ k = (text_eq_iff (track_key env u) k).0 (ground arith) in
      rw (e, p) refl

  All-put_key {κ} :
      (P : Track → Type κ) (k : Text) (t : Track) (best : List Track)
      → P t
      → All P best
      → All P (put_key env k t best)
  unfolding put_key
  All-put_key P k t [] h hs = (h, tt)
  All-put_key P k t (u ∷ us) h (l, hs) = elim (Bool-cases (has_key env k u)) [
    | inl e ↦
        elim (Bool-cases
          (not (is_some u.trackid_music_track_id) && is_some t.trackid_music_track_id)) [
            | inl f ↦ rw (e, f) (h, hs)
            | inr f ↦ rw (e, f) (l, hs)
          ]
    | inr e ↦ rw e (l, All-put_key P k t us h hs)
  ]

  pub All-by_key {κ} :
      (P : Track → Type κ) (ts best : List Track)
      → All P best
      → All P ts
      → All P (by_key env best ts)
  unfolding by_key
  All-by_key P [] best hb h = hb
  All-by_key P (t ∷ ts) best hb (h, hs) = elim (Bool-cases (is_blank (track_key env t))) [
    | inl e ↦ rw e (All-by_key P ts (best ++ (t ∷ [])) (All-append P best (t ∷ []) hb (h, tt)) hs)
    | inr e ↦ rw e (
        All-by_key P ts (put_key env (track_key env t) t best)
          (All-put_key P (track_key env t) t best h hb) hs)
  ]

  -- A pass makes no kind of track more frequent.
  count-put_key_le :
      (q : Track → Bool) (k : Text) (t : Track) (best : List Track)
      → count q (put_key env k t best) ≤ count q best + (if q t then 1 else 0)
  unfolding put_key
  count-put_key_le q k t [] = ground arith
  count-put_key_le q k t (u ∷ us) = ground (arith, count-put_key_le q k t us)

  pub count-by_key_le :
      (q : Track → Bool) (ts best : List Track)
      → count q (by_key env best ts) ≤ count q best + count q ts
  unfolding by_key
  count-by_key_le q [] best = omega arith
  count-by_key_le q (t ∷ ts) best = elim (Bool-cases (is_blank (track_key env t))) [
    | inl e ↦
        rw e (omega (arith, count-by_key_le q ts (best ++ (t ∷ [])), count-append q best (t ∷ [])))
    | inr e ↦ rw e (
        omega (
          arith,
          count-by_key_le q ts (put_key env (track_key env t) t best),
          count-put_key_le q (track_key env t) t best,
        ))
  ]

  any-put_key :
      (j k : Text) (t : Track) (best : List Track)
      → track_key env t ≡ k
      → any (has_key env j) (put_key env k t best) ≡ any (has_key env j) best || has_key env j t
  unfolding put_key
  any-put_key j k t [] h = ground arith
  any-put_key j k t (u ∷ us) h = elim (Bool-cases (has_key env k u)) [
    | inl e ↦ rw e (ground (arith, same_tests k t u e h j))
    | inr e ↦ rw e (ground (arith, any-put_key j k t us h))
  ]

  other_key :
      (j k : Text) (t u : Track)
      → track_key env t ≡ k
      → has_key env k u ≡ false
      → has_key env j u ≡ true
      → has_key env j t ≡ false
  other_key j k t u h e f = ground (
    arith,
    text_eq_iff (track_key env t) j,
    text_eq_iff (track_key env u) j,
    text_eq_iff (track_key env u) k,
  )

  count-put_key :
      (j k : Text) (t : Track) (best : List Track)
      → track_key env t ≡ k
      → is_blank k ≡ false
      → IsOnce (has_key env j) best
      → IsOnce (has_key env j) (put_key env k t best)
  unfolding put_key
  count-put_key j k t [] h n o = ground arith
  count-put_key j k t (u ∷ us) h n o = elim (Bool-cases (has_key env k u)) [
    | inl e ↦ rw e (ground (arith, same_tests k t u e h j))
    | inr e ↦ rw e (elim (Bool-cases (has_key env j u)) [
      | inl f ↦
          let low : count (has_key env j) us ≤ 0 = ground arith in
          let gone : any (has_key env j) us ≡ false = any_of_count (has_key env j) us low in
          let still =
            count-zero (has_key env j) (put_key env k t us)
              (any-put_key j k t us h ∙ ground (arith, gone, other_key j k t u h e f)) in
          ground (arith, still)
      | inr f ↦ rw f (ground (arith, count-put_key j k t us h n))
    ])
  ]

  pub any-by_key :
      (j : Text) (ts best : List Track)
      → any (has_key env j) (by_key env best ts)
        ≡ any (has_key env j) best || any (has_key env j) ts
  unfolding by_key
  any-by_key j [] best = ground arith
  any-by_key j (t ∷ ts) best = elim (Bool-cases (is_blank (track_key env t))) [
    | inl e ↦ rw e (
        any-by_key j ts (best ++ (t ∷ []))
        ∙ ground (arith, any-append (has_key env j) best (t ∷ [])))
    | inr e ↦ rw e (
        any-by_key j ts (put_key env (track_key env t) t best)
        ∙ ground (arith, any-put_key j (track_key env t) t best refl))
  ]

  pub count-by_key :
      (j : Text) (ts best : List Track)
      → IsOnce (has_key env j) best
      → IsOnce (has_key env j) (by_key env best ts)
  unfolding by_key
  count-by_key j [] best o = o
  count-by_key j (t ∷ ts) best o = elim (Bool-cases (is_blank (track_key env t))) [
    | inl e ↦ rw e (
        count-by_key j ts (best ++ (t ∷ []))
          (ground (arith, count-append (has_key env j) best (t ∷ []))))
    | inr e ↦ rw e (
        count-by_key j ts (put_key env (track_key env t) t best)
          (count-put_key j (track_key env t) (t) best refl e o))
  ]

  abbrev pub unnamed : (Track → Bool) → Track → Bool
  unnamed q t = is_blank (track_key env t) && q t

  count-put_unnamed :
      (q : Track → Bool) (k : Text) (t : Track) (best : List Track)
      → is_blank (track_key env t) ≡ false
      → count (unnamed q) (put_key env k t best) ≡ count (unnamed q) best
  unfolding put_key
  count-put_unnamed q k t [] n = ground arith
  count-put_unnamed q k t (u ∷ us) n = ground (arith, count-put_unnamed q k t us n)

  pub count-by_key-unnamed :
      (q : Track → Bool) (ts best : List Track)
      → count (unnamed q) (by_key env best ts) ≡ count (unnamed q) best + count (unnamed q) ts
  unfolding by_key
  count-by_key-unnamed q [] best = omega arith
  count-by_key-unnamed q (t ∷ ts) best = elim (Bool-cases (is_blank (track_key env t))) [
    | inl e ↦ rw e (
        count-by_key-unnamed q ts (best ++ (t ∷ []))
        ∙ ground (arith, count-append (unnamed q) best (t ∷ []), e))
    | inr e ↦ rw e (
        count-by_key-unnamed q ts (put_key env (track_key env t) t best)
        ∙ ground (arith, count-put_unnamed q (track_key env t) t best e))
  ]
