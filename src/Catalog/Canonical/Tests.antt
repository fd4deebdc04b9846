-- ===== src/Catalog/Canonical/Tests.antt =====
-- Tests of the choice of a canonical row, and the theorems on it at concrete rows.
use mathlib.Core.List.{Memᴰ}
use diggy.Prelude.{ℕ, String, ◌≡◌, refl, ◌∙◌, sym, false, Option, none, some, [], ◌∷◌}
use diggy.Catalog.Rows.{CatalogEntry, shared}
use diggy.Catalog.Canonical.{completeness, canonical_sort_key, key_lt, least_from, pick_canonical}
use diggy.Catalog.Canonical.Least.{HasDistinctIds, SameRows}

abbrev row : ℕ → Option String → Option ℕ → CatalogEntry
row i isrc created = record {
  id = i;
  title = "Strobe";
  artist = some "deadmau5";
  normalized_key = "strobe - deadmau5";
  isrc = isrc;
  deezer_id = some "42";
  beatport_id = none;
  bpm = none;
  key = none;
  duration_ms = none;
  genres = [];
  release_date = none;
  has_artwork = false;
  has_preview = false;
  created_at = created;
  scope = shared;
  owner_id = none;
  bpm_source = none;
  key_source = none;
  bpm_analyzed_at = none;
  bpm_analysis_attempts = 0;
  label = none;
  deezer_searched_at = none;
  beatport_searched_at = none;
  deezer_search_attempts = 0;
  beatport_search_attempts = 0;
}

abbrev old : CatalogEntry
old = row 1 none (some 10)

abbrev with_isrc : CatalogEntry
with_isrc = row 2 (some "USABC1234567") (some 20)

abbrev undated : CatalogEntry
undated = row 3 none none

picks_isrc : pick_canonical (old ∷ with_isrc ∷ undated ∷ []) ≡ some with_isrc
unfolding pick_canonical least_from canonical_sort_key key_lt completeness
picks_isrc = refl

picks_isrc_backwards : pick_canonical (undated ∷ with_isrc ∷ old ∷ []) ≡ some with_isrc
unfolding pick_canonical least_from canonical_sort_key key_lt completeness
picks_isrc_backwards = refl

picks_dated : pick_canonical (undated ∷ old ∷ []) ≡ some old
unfolding pick_canonical least_from canonical_sort_key key_lt completeness
picks_dated = refl

distinct : HasDistinctIds (old ∷ with_isrc ∷ [])
distinct x y (Memᴰ.head p) (Memᴰ.head q) e = p ∙ sym q
distinct x y (Memᴰ.head p) (Memᴰ.tail (Memᴰ.head q)) e = cc
distinct x y (Memᴰ.tail (Memᴰ.head p)) (Memᴰ.head q) e = cc
distinct x y (Memᴰ.tail (Memᴰ.head p)) (Memᴰ.tail (Memᴰ.head q)) e = p ∙ sym q
distinct x y (Memᴰ.head p) (Memᴰ.tail (Memᴰ.tail m)) e = elim m [ ]
distinct x y (Memᴰ.tail (Memᴰ.head p)) (Memᴰ.tail (Memᴰ.tail m)) e = elim m [ ]
distinct x y (Memᴰ.tail (Memᴰ.tail m)) _ e = elim m [ ]

swapped : (x : CatalogEntry) (a b : CatalogEntry) → Memᴰ x (a ∷ b ∷ []) → Memᴰ x (b ∷ a ∷ [])
swapped x a b (Memᴰ.head p) = Memᴰ.tail (Memᴰ.head p)
swapped x a b (Memᴰ.tail (Memᴰ.head p)) = Memᴰ.head p
swapped x a b (Memᴰ.tail (Memᴰ.tail m)) = elim m [ ]

same : SameRows (old ∷ with_isrc ∷ []) (with_isrc ∷ old ∷ [])
same = (λ x m. swapped x old with_isrc m, λ x m. swapped x with_isrc old m)

two : pick_canonical (old ∷ with_isrc ∷ []) ≡ some with_isrc
unfolding pick_canonical least_from canonical_sort_key key_lt completeness
two = refl

two_backwards : pick_canonical (with_isrc ∷ old ∷ []) ≡ some with_isrc
unfolding pick_canonical least_from canonical_sort_key key_lt completeness
two_backwards = refl
