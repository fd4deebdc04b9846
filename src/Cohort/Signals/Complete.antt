-- ===== src/Cohort/Signals/Complete.antt =====
-- The candidates are complete: an artist that qualifies is one of them.
use diggy.Prelude.{
  ℕ, ◌≡◌, ◌≢◌, refl, sym, ◌∙◌, Bool, true, false, ◌&&◌, none, List, [], ◌∷◌, ◌++◌, map, arith, ◌==◌,
  Bool-cases, inl, inr, any, filter, filter_map, distinct, mem, mem-distinct, mem-map,
  mem-filter_map, filter-nil, any-append, count-zero,
}
use diggy.Cohort.Rows.{SignalTables}
use diggy.Cohort.Tier.{compute_tier, compute_tier_silent}
use diggy.Cohort.Signals.{
  nb_catalog, nb_lib, nb_sets_12m, nb_likes, is_followed, signals_of, candidate_ids, in_library,
  dj_link_counts, liked_artist, likes_artist, liked_catalog_ids,
}

any-filter :
    {A : Type 0} (p q : A → Bool) (xs : List A) → any p (filter q xs) ≡ any (λ x. p x && q x) xs
any-filter p q [] = refl
any-filter p q (x ∷ xs) = ground (arith, any-filter p q xs)

any_none-filter : {A : Type 0} (p : A → Bool) (xs : List A) → any p xs ≡ false → filter p xs ≡ []
any_none-filter p xs h = filter-nil p p xs (λ x k. k) h

-- What it means for an artist to be no candidate, query by query.
record NoTrace (t : SignalTables) (now aid : ℕ) : Type 0 where
  links : any (λ l. l.artist_id == aid) t.catalog_artists ≡ false
  sets : any (λ l. l.artist_id == aid && dj_link_counts t now l) t.set_artists ≡ false
  likes : any (likes_artist aid) t.user_opinions ≡ false
  follows : any (λ f. f.artist_id == aid) t.followed_artists ≡ false

not_in_union :
    (n : ℕ) (ws xs ys zs : List ℕ)
    → mem n (distinct (ws ++ xs ++ ys ++ zs)) ≡ false
    → (mem n ws ≡ false) × (mem n xs ≡ false) × (mem n ys ≡ false) × (mem n zs ≡ false)
not_in_union n ws xs ys zs h =
    let whole : mem n (ws ++ xs ++ ys ++ zs) ≡ false =
      sym (mem-distinct n (ws ++ xs ++ ys ++ zs)) ∙ h in
    let first = any-append (λ x. x == n) (ws ++ xs ++ ys) zs in
    let second = any-append (λ x. x == n) (ws ++ xs) ys in
    let third = any-append (λ x. x == n) ws xs in
    (ground arith, ground arith, ground arith, ground arith)

no_candidate-NoTrace :
    (t : SignalTables) (now aid : ℕ) → mem aid (candidate_ids t now) ≡ false → NoTrace t now aid
unfolding candidate_ids
no_candidate-NoTrace t now aid h =
    let (links, sets, likes, follows) =
      not_in_union aid (map (λ l. l.artist_id) t.catalog_artists)
        (map (λ l. l.artist_id) (filter (dj_link_counts t now) t.set_artists))
        (filter_map liked_artist t.user_opinions) (map (λ f. f.artist_id) t.followed_artists) h in
    record {
      links = sym (mem-map (λ l. l.artist_id) aid t.catalog_artists) ∙ links;
      sets =
          sym (any-filter (λ l. l.artist_id == aid) (dj_link_counts t now) t.set_artists)
          ∙ sym (mem-map (λ l. l.artist_id) aid (filter (dj_link_counts t now) t.set_artists))
          ∙ sets;
      likes = sym (mem-filter_map liked_artist aid t.user_opinions) ∙ likes;
      follows = sym (mem-map (λ f. f.artist_id) aid t.followed_artists) ∙ follows;
    }

NoTrace-compute_tier :
    (t : SignalTables) (now aid : ℕ)
    → NoTrace t now aid
    → compute_tier (signals_of t now aid) ≡ none
unfolding signals_of nb_catalog nb_lib nb_sets_12m nb_likes is_followed
NoTrace-compute_tier t now aid h =
    compute_tier_silent (signals_of t now aid)
      (rw
        (filter-nil (λ l. l.artist_id == aid) (λ l. l.artist_id == aid && in_library t l)
          t.catalog_artists (λ x k. ground arith) h.links)
        refl)
      (rw
        (
          count-zero (likes_artist aid) t.user_opinions h.likes,
          filter-nil (λ l. l.artist_id == aid)
              (λ l. l.artist_id == aid && mem l.catalog_id (liked_catalog_ids t)) t.catalog_artists
              (λ x k. ground arith) h.links,
        )
        refl)
      (rw (any_none-filter (λ l. l.artist_id == aid && dj_link_counts t now l) t.set_artists h.sets)
        refl)
      (rw (any_none-filter (λ l. l.artist_id == aid) t.catalog_artists h.links) refl) h.follows

-- An artist that the signals put into a tier is always among those that the recompute considers.
pub candidates_complete :
    (t : SignalTables) (now aid : ℕ)
    → compute_tier (signals_of t now aid) ≢ none
    → mem aid (candidate_ids t now) ≡ true
candidates_complete t now aid h = elim (Bool-cases (mem aid (candidate_ids t now))) [
  | inl e ↦ e
  | inr e ↦ absurd (h (NoTrace-compute_tier t now aid (no_candidate-NoTrace t now aid e)))
]
