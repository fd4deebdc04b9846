-- ===== src/Catalog/Absorb.antt =====
-- The part of `merge_catalog_entries` (server/workers/catalog_merge.py) that unions the metadata of
-- the loser onto the canonical row, in the code's two stages: the columns that may be set at once,
-- and the unique ones that are set after the loser is deleted.
pub mod Laws
use diggy.Prelude.{
  ℕ, String, Bool, true, not, ◌||◌, Option, none, some, List, [], ◌∷◌, ◌++◌, str_eq, leb, max,
  if◌then◌else◌, is_some, or_else, any,
}
use diggy.Catalog.Rows.{CatalogEntry, Scope, shared}

-- Most recent of two nullable datetimes.
unfoldable pub latest : Option ℕ → Option ℕ → Option ℕ
latest none b = b
latest (some a) none = some a
latest (some a) (some b) = if leb b a then some a else some b

-- the loop that appends the loser's genres that are not yet there
unfoldable pub merge_genres : List String → List String → List String
merge_genres merged [] = merged
merge_genres merged (g ∷ gs) =
    merge_genres (if any (λ h. str_eq h g) merged then merged else merged ++ g ∷ []) gs

abbrev pub is_shared : Scope → Bool
is_shared shared = true
is_shared _ = Bool.false

-- The NULL-fill, the flags, the search histories and the scope.
unfoldable pub absorb_metadata : CatalogEntry → CatalogEntry → CatalogEntry
absorb_metadata canonical loser = record canonical {
  genres = merge_genres canonical.genres loser.genres;
  duration_ms = or_else canonical.duration_ms loser.duration_ms;
  label = or_else canonical.label loser.label;
  release_date = or_else canonical.release_date loser.release_date;
  bpm = or_else canonical.bpm loser.bpm;
  bpm_source =
      if not (is_some canonical.bpm)
      then (if is_some loser.bpm then loser.bpm_source else canonical.bpm_source)
      else canonical.bpm_source;
  key = or_else canonical.key loser.key;
  key_source =
      if not (is_some canonical.key)
      then (if is_some loser.key then loser.key_source else canonical.key_source)
      else canonical.key_source;
  has_artwork = canonical.has_artwork || loser.has_artwork;
  has_preview = canonical.has_preview || loser.has_preview;
  deezer_search_attempts = max canonical.deezer_search_attempts loser.deezer_search_attempts;
  deezer_searched_at = latest canonical.deezer_searched_at loser.deezer_searched_at;
  beatport_search_attempts = max canonical.beatport_search_attempts loser.beatport_search_attempts;
  beatport_searched_at = latest canonical.beatport_searched_at loser.beatport_searched_at;
  bpm_analysis_attempts = max canonical.bpm_analysis_attempts loser.bpm_analysis_attempts;
  bpm_analyzed_at = latest canonical.bpm_analyzed_at loser.bpm_analyzed_at;
  scope = if is_shared loser.scope || is_shared canonical.scope then shared else canonical.scope;
  owner_id =
      if is_shared loser.scope || is_shared canonical.scope then none else canonical.owner_id;
}

-- The unique columns, once the loser is gone.
unfoldable pub absorb_ids : CatalogEntry → CatalogEntry → CatalogEntry
absorb_ids canonical loser = record canonical {
  isrc = or_else canonical.isrc loser.isrc;
  deezer_id = or_else canonical.deezer_id loser.deezer_id;
  beatport_id = or_else canonical.beatport_id loser.beatport_id;
}

unfoldable pub absorb : CatalogEntry → CatalogEntry → CatalogEntry
unfolding absorb_metadata absorb_ids
absorb canonical loser = absorb_ids (absorb_metadata canonical loser) loser
