-- ===== src/Catalog/Absorb/Laws.antt =====
-- Taking over the loser's metadata never loses, downgrades or overwrites what the canonical has.
use diggy.Prelude.{
  ℕ, String, ◌≤◌, ◌≡◌, ◌⊎◌, inl, inr, ◌∙◌, Bool, true, false, ◌||◌, Option, none, some, List, [],
  ◌∷◌, ◌++◌, arith, is_some, or_else, any, any-append, str_eq, str_eq_iff, if◌then◌else◌,
  Bool-cases,
}
use diggy.Catalog.Rows.{CatalogEntry, truthy}
use diggy.Catalog.Canonical.{one_if, completeness, canonical_sort_key, key_lt}
use diggy.Catalog.Absorb.{merge_genres, is_shared, absorb}

module _ {A : Type 0} (a b : Option A) where
  some_left : one_if (is_some a) ≤ one_if (is_some (or_else a b))
  some_left = ground arith

  some_right : one_if (is_some b) ≤ one_if (is_some (or_else a b))
  some_right = ground arith

flag_left : (a b : Bool) → one_if a ≤ one_if (a || b)
flag_left a b = ground arith

flag_right : (a b : Bool) → one_if b ≤ one_if (a || b)
flag_right a b = ground arith

completeness_left : (c l : CatalogEntry) → completeness c ≤ completeness (absorb c l)
unfolding absorb completeness
completeness_left c l = omega (
  arith,
  some_left c.bpm l.bpm,
  some_left c.key l.key,
  some_left c.duration_ms l.duration_ms,
  some_left c.label l.label,
  some_left c.release_date l.release_date,
  flag_left c.has_artwork l.has_artwork,
  flag_left c.has_preview l.has_preview,
)

completeness_right : (c l : CatalogEntry) → completeness l ≤ completeness (absorb c l)
unfolding absorb completeness
completeness_right c l = omega (
  arith,
  some_right c.bpm l.bpm,
  some_right c.key l.key,
  some_right c.duration_ms l.duration_ms,
  some_right c.label l.label,
  some_right c.release_date l.release_date,
  flag_right c.has_artwork l.has_artwork,
  flag_right c.has_preview l.has_preview,
)

-- a key that differs only by an ISRC gained and by more columns filled
key_lt_improved :
    (no_isrc no_isrc' no_date created complete complete' id : ℕ)
    → no_isrc' ≤ no_isrc
    → complete ≤ complete'
    → key_lt
        (record {
          no_isrc = no_isrc;
          no_date = no_date;
          created = created;
          complete = complete;
          id = id;
        })
        (record {
          no_isrc = no_isrc';
          no_date = no_date;
          created = created;
          complete = complete';
          id = id;
        })
      ≡ false
unfolding key_lt
key_lt_improved a a' b c d d' e h k = ground arith

truthy_left :
    (a b : Option String) → (if truthy (or_else a b) then 0 else 1) ≤ (if truthy a then 0 else 1)
truthy_left none b = ground arith
truthy_left (some a) b = omega arith

-- The merged row is at least as complete as either row, and does not sort after the canonical, so
-- that a later choice among duplicates does not turn against it.
pub absorb-completeness :
    (c l : CatalogEntry)
    → (completeness c ≤ completeness (absorb c l))
      × (completeness l ≤ completeness (absorb c l))
      × (key_lt (canonical_sort_key c) (canonical_sort_key (absorb c l)) ≡ false)
unfolding absorb canonical_sort_key
absorb-completeness c l = (
  completeness_left c l,
  completeness_right c l,
  key_lt_improved _ _ _ _ _ _ _ (truthy_left c.isrc l.isrc) (completeness_left c l),
)

-- a genre that equals one already there
known :
    (g x : String) (merged : List String)
    → any (λ h. str_eq h x) merged ≡ true
    → str_eq x g ≡ true
    → any (λ h. str_eq h g) merged ≡ true
known g x merged h e = let p : x ≡ g = (str_eq_iff x g).0 e in rw (← p) h

any-merge_genres :
    (g : String) (merged gs : List String)
    → any (λ h. str_eq h g) (merge_genres merged gs)
      ≡ any (λ h. str_eq h g) merged || any (λ h. str_eq h g) gs
unfolding merge_genres
any-merge_genres g merged [] = ground arith
any-merge_genres g merged (x ∷ gs) = elim (Bool-cases (any (λ h. str_eq h x) merged)) [
  | inl old ↦ rw old (any-merge_genres g merged gs ∙ ground (arith, known g x merged old))
  | inr new ↦ rw new (
      any-merge_genres g (merged ++ x ∷ []) gs
      ∙ ground (arith, any-append (λ h. str_eq h g) merged (x ∷ [])))
]

-- What the merged row says of each part of the metadata: a genre of either row is kept, the bpm and
-- the key come with the source that belongs to them, and a shared row stays shared, without owner.
pub record IsUnion (c l m : CatalogEntry) : Type 0 where
  pub genres :
      (g : String)
      → any (λ h. str_eq h g) m.genres
        ≡ any (λ h. str_eq h g) c.genres || any (λ h. str_eq h g) l.genres
  pub bpm :
      ((m.bpm ≡ c.bpm) × (m.bpm_source ≡ c.bpm_source))
      ⊎ ((c.bpm ≡ none) × (m.bpm ≡ l.bpm) × (m.bpm_source ≡ l.bpm_source))
  pub key :
      ((m.key ≡ c.key) × (m.key_source ≡ c.key_source))
      ⊎ ((c.key ≡ none) × (m.key ≡ l.key) × (m.key_source ≡ l.key_source))
  pub scope : is_shared m.scope ≡ is_shared c.scope || is_shared l.scope
  pub owner : is_shared m.scope ≡ true → m.owner_id ≡ none

-- The merged row is the union of the two: no genre, bpm, key or visibility is lost or overwritten.
pub absorb-IsUnion : (c l : CatalogEntry) → IsUnion c l (absorb c l)
unfolding absorb
absorb-IsUnion c l = record {
  genres = λ g. any-merge_genres g c.genres l.genres;
  bpm = ground arith;
  key = ground arith;
  scope = ground arith;
  owner = ground arith;
}
