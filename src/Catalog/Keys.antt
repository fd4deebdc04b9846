-- ===== src/Catalog/Keys.antt =====
-- The five tables of a catalog merge as tables of links, each with the test for the rows of one
-- catalog id that server/workers/catalog_merge.py writes in its WHERE clauses.
use diggy.Prelude.{ℕ, ◌≡◌, refl, Bool, true, false, ◌&&◌, none, some, arith, ◌==◌}
use diggy.Prelude.Text.{str, text_eq, text_eq-str, text_eq_iff}
use diggy.Catalog.Rows.{
  CatalogArtist, UserTrack, UserRadarState, CollectionItem, UserOpinion, is_track,
}
use diggy.Catalog.Repoint.{Linked}

pub one_by_id : (i c d : ℕ) → (i == c) ≡ true → (i == d) ≡ (c == d)
one_by_id i c d h = ground arith

pub same_id : (c d : ℕ) → (c == d) ≡ (c == d)
same_id c d = refl

abbrev pub catalog_artists_link : Linked CatalogArtist
catalog_artists_link = record {
  owns = λ c r. r.catalog_id == c;
  other = λ r. r.artist_id;
  set_owner = λ r c. record r { catalog_id = c };
  owns_one = λ r c d h. one_by_id r.catalog_id c d h;
  owns_set = λ r l c d h. same_id c d;
  other_set = λ r c. refl;
}

abbrev pub user_tracks_link : Linked UserTrack
user_tracks_link = record {
  owns = λ c r. r.catalog_id == c;
  other = λ r. r.user_id;
  set_owner = λ r c. record r { catalog_id = c };
  owns_one = λ r c d h. one_by_id r.catalog_id c d h;
  owns_set = λ r l c d h. same_id c d;
  other_set = λ r c. refl;
}

abbrev pub user_radar_state_link : Linked UserRadarState
user_radar_state_link = record {
  owns = λ c r. r.catalog_id == c;
  other = λ r. r.user_id;
  set_owner = λ r c. record r { catalog_id = c };
  owns_one = λ r c d h. one_by_id r.catalog_id c d h;
  owns_set = λ r l c d h. same_id c d;
  other_set = λ r c. refl;
}

-- Only the items of type track hold a catalog id.
abbrev pub is_item : ℕ → CollectionItem → Bool
is_item c r = is_track r.item_type && elim r.item_id [ none ↦ false | some i ↦ i == c ]

pub item_one : (r : CollectionItem) (c d : ℕ) → is_item c r ≡ true → is_item d r ≡ (c == d)
item_one r c d h = ground arith

pub item_set :
    (r : CollectionItem) (l c d : ℕ)
    → is_item l r ≡ true
    → is_item d (record r { item_id = some c }) ≡ (c == d)
item_set r l c d h = ground arith

abbrev pub collection_items_link : Linked CollectionItem
collection_items_link = record {
  owns = is_item;
  other = λ r. r.collection_id;
  set_owner = λ r c. record r { item_id = some c };
  owns_one = item_one;
  owns_set = item_set;
  other_set = λ r c. refl;
}

-- The key of an opinion on a track is `str(catalog_id)`.
abbrev pub is_opinion : ℕ → UserOpinion → Bool
is_opinion c r = is_track r.entity_type && text_eq r.entity_key (str c)

pub opinion_one : (r : UserOpinion) (c d : ℕ) → is_opinion c r ≡ true → is_opinion d r ≡ (c == d)
opinion_one r c d h = ground (arith, text_eq_iff r.entity_key (str c), text_eq-str c d)

pub opinion_set :
    (r : UserOpinion) (l c d : ℕ)
    → is_opinion l r ≡ true
    → is_opinion d (record r { entity_key = str c }) ≡ (c == d)
opinion_set r l c d h = ground (arith, text_eq-str c d)

abbrev pub user_opinions_link : Linked UserOpinion
user_opinions_link = record {
  owns = is_opinion;
  other = λ r. r.user_id;
  set_owner = λ r c. record r { entity_key = str c };
  owns_one = opinion_one;
  owns_set = opinion_set;
  other_set = λ r c. refl;
}
