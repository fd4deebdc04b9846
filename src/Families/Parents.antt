-- ===== src/Families/Parents.antt =====
-- `find_or_create_virtual_parent`, `materialize_parent`, `attach_pair`, `_attach_group_members` and
-- `detach_set_from_parent` over the tables of the families.
pub mod Touches
pub mod Real
pub mod Safe
pub mod SameFlags
use diggy.Prelude.{
  ℕ, zero, suc, ◌+◌, max, min, Bool, true, false, not, ◌&&◌, ◌||◌, Option, none, some, List, [],
  ◌∷◌, ◌++◌, map, ltb, leb, ◌==◌, if◌then◌else◌, is_some, get_or, or_else, length, filter,
  filter_map, any, head?, delete_where, update_where,
}
use diggy.Prelude.Text.{Text}
use diggy.Prelude.Sort.{sort_by}
use diggy.Prelude.Distinct.{first_seen}
use diggy.Families.Rows.{
  DjSet, Track, SetTrack, SetFlag, FamilyDb, Env, Result, ok, err, ◌>>=◌, ◌>>◌, or_raise, raise_if,
  Error, lookup_error, value_error, attribute_error, index_error, has_id, get_set, is_child_of,
}
use diggy.Families.Parts.{nonempty, merge_parts}
use diggy.Families.Duplicates.{merge_duplicates}
use diggy.Families.Metadata.{
  given, pick_best_parent_title, children_of, is_virtual_set, sync_parent_metadata,
}

-- `parent_id`, and whether the call created the parent
pub record Parent : Type 0 where
  pub parent_id : ℕ
  pub created : Bool
  pub db : FamilyDb

abbrev pub is_pair : ℕ → ℕ → DjSet → Bool
is_pair a b s = has_id a s || has_id b s

-- A set without a parent gets the one that the other has.
unfoldable pub adopt : ℕ → ℕ → ℕ → FamilyDb → FamilyDb
adopt a b p db = record db {
  sets =
      update_where (is_pair a b)
        (λ s. record s { parent_set_id = or_else s.parent_set_id (some p) }) db.sets;
}

abbrev pub chosen_title : Env → Option Text → DjSet → DjSet → Text
chosen_title env none set_a set_b = pick_best_parent_title env (set_a.title ∷ set_b.title ∷ [])
chosen_title env (some title) set_a set_b = title

unfoldable pub new_parent : Env → ℕ → Option ℕ → Option Text → DjSet → DjSet → DjSet
new_parent env id played_date title set_a set_b = record {
  id = id;
  external_id = none;
  source = "virtual";
  source_url = none;
  title = chosen_title env title set_a set_b;
  played_date = or_else played_date set_a.played_date;
  duration_ms = none;
  has_artwork = set_a.has_artwork || set_b.has_artwork;
  parent_set_id = none;
  is_virtual = true;
  part_number = none;
  unreliable = false;
  channel = none;
  styles = [];
  event_date = none;
  channel_canonical = none;
}

unfoldable pub create_parent : Env → Option ℕ → Option Text → DjSet → DjSet → FamilyDb → FamilyDb
create_parent env played_date title set_a set_b db =
    let p = db.next_set_id in
    record db {
      sets =
          update_where (is_pair set_a.id set_b.id) (λ s. record s { parent_set_id = some p })
            db.sets
          ++ new_parent env p played_date title set_a set_b ∷ [];
      next_set_id = suc p;
    }

abbrev pub parent_of : Env → Option ℕ → Option ℕ → Option Text → DjSet → DjSet → FamilyDb → Parent
parent_of env (some p) played_date title set_a set_b db = record {
  parent_id = p;
  created = false;
  db = adopt set_a.id set_b.id p db;
}
parent_of env none played_date title set_a set_b db = record {
  parent_id = db.next_set_id;
  created = true;
  db = create_parent env played_date title set_a set_b db;
}

-- Reading a field of a set that is not there is an AttributeError.
unfoldable pub find_or_create_virtual_parent :
    Env → ℕ → ℕ → Option ℕ → Option Text → FamilyDb → Result Parent
find_or_create_virtual_parent env a b played_date title db = do
  set_a ← or_raise (get_set a db) attribute_error
  set_b ← or_raise (get_set b db) attribute_error
  ok (
      parent_of env (or_else set_a.parent_set_id set_b.parent_set_id) played_date title set_a set_b
        db)

abbrev position_le : SetTrack → SetTrack → Bool
position_le a b = leb a.position b.position

unfoldable pub tracks_of : FamilyDb → ℕ → List Track
tracks_of db i =
    map (λ t. t.track) (sort_by position_le (filter (λ t. t.set_id == i) db.set_tracks))

abbrev same_part : Option ℕ → Option ℕ → Bool
same_part none none = true
same_part (some m) (some n) = m == n
same_part _ _ = false

-- len({c.part_number for c in tracked}) > 1
unfoldable pub is_parts_case : List DjSet → Bool
is_parts_case tracked = ltb 1 (length (first_seen same_part (map (λ c. c.part_number) tracked)))

abbrev sum_durations : List DjSet → ℕ
sum_durations [] = 0
sum_durations (c ∷ cs) = get_or c.duration_ms 0 + sum_durations cs

abbrev max_duration : List DjSet → ℕ
max_duration [] = 0
max_duration (c ∷ cs) = max (get_or c.duration_ms 0) (max_duration cs)

abbrev merge_tracked : Env → (ℕ → List Track) → List DjSet → List Track
merge_tracked env tracks [] = []
merge_tracked env tracks (c ∷ cs) = merge_duplicates env tracks c cs

unfoldable pub merged_tracks : Env → (ℕ → List Track) → List DjSet → List Track
merged_tracks env tracks children =
    let tracked = filter (λ c. nonempty (tracks c.id)) children in
    if is_parts_case tracked
    then merge_parts env tracked tracks
    else merge_tracked env tracks tracked

unfoldable pub merged_duration : (ℕ → List Track) → List DjSet → ℕ
merged_duration tracks children =
    let tracked = filter (λ c. nonempty (tracks c.id)) children in
    if is_parts_case tracked then sum_durations tracked else max_duration children

-- enumerate(tracks, start=n) as rows of the set `p`
abbrev pub numbered : ℕ → ℕ → List Track → List SetTrack
numbered p n [] = []
numbered p n (t ∷ ts) = record { set_id = p; position = n; track = t } ∷ numbered p (suc n) ts

pub record Materialized : Type 0 where
  pub track_count : ℕ
  pub db : FamilyDb

abbrev pub without_tracks : ℕ → FamilyDb → FamilyDb
without_tracks p db = record db { set_tracks = delete_where (λ t. t.set_id == p) db.set_tracks }

abbrev pub with_tracks : ℕ → List Track → ℕ → FamilyDb → FamilyDb
with_tracks p merged duration db = record db {
  sets = update_where (has_id p) (λ s. record s { duration_ms = some duration }) db.sets;
  set_tracks = db.set_tracks ++ numbered p 1 merged;
}

-- The children are read before the DELETE, their tracks after it.
abbrev pub rebuild : Env → ℕ → List DjSet → FamilyDb → Materialized
rebuild env p [] db = record { track_count = 0; db = sync_parent_metadata env p db }
rebuild env p (c ∷ cs) db =
    let tracks = tracks_of db in
    let merged = merged_tracks env tracks (c ∷ cs) in
    record {
      track_count = length merged;
      db = sync_parent_metadata env p (with_tracks p merged (merged_duration tracks (c ∷ cs)) db);
    }

unfoldable pub materialize_parent : Env → ℕ → FamilyDb → Materialized
materialize_parent env p db =
    if is_virtual_set (get_set p db)
    then rebuild env p (children_of p db) (without_tracks p db)
    else record { track_count = 0; db = db }

-- more than one element in {s.parent_set_id …}
abbrev pub differ : Option ℕ → Option ℕ → Bool
differ (some p) (some q) = not (p == q)
differ _ _ = false

abbrev pub bad_parent : Option ℕ → FamilyDb → Bool
bad_parent none db = false
bad_parent (some p) db = not (is_virtual_set (get_set p db))

abbrev pub materialized : Env → Parent → Parent
materialized env parent = record parent {
  db = (materialize_parent env parent.parent_id parent.db).db;
}

unfoldable pub attach_pair : Env → ℕ → ℕ → FamilyDb → Result Parent
attach_pair env a b db = do
  set_a ← or_raise (get_set a db) lookup_error
  set_b ← or_raise (get_set b db) lookup_error
  raise_if (a == b) value_error
  raise_if (set_a.is_virtual || set_b.is_virtual) value_error
  raise_if (differ set_a.parent_set_id set_b.parent_set_id) value_error
  raise_if (bad_parent (or_else set_a.parent_set_id set_b.parent_set_id) db) value_error
  parent ← find_or_create_virtual_parent env a b none none db
  ok (materialized env parent)

abbrev min_from : ℕ → List ℕ → ℕ
min_from d [] = d
min_from d (e ∷ ds) = min_from (min d e) ds

abbrev min_date : List ℕ → Option ℕ
min_date [] = none
min_date (d ∷ ds) = some (min_from d ds)

-- members beyond the first pair, one by one
unfoldable pub adopt_all : List ℕ → ℕ → FamilyDb → FamilyDb
adopt_all [] p db = db
adopt_all (m ∷ ms) p db = adopt_all ms p (adopt m m p db)

abbrev title_of : Option DjSet → Option Text
title_of none = none
title_of (some s) = some s.title

abbrev pub is_member : List ℕ → DjSet → Bool
is_member ids s = any (λ i. i == s.id) ids

abbrev attach_members : Env → List ℕ → Option ℕ → Option Text → FamilyDb → Result (Option Parent)
attach_members env (a ∷ b ∷ rest) played_date title db = do
  parent ← find_or_create_virtual_parent env a b played_date title db
  ok (some (materialized env (record parent { db = adopt_all rest parent.parent_id parent.db })))
attach_members env _ played_date title db = err index_error

unfoldable pub attach_group_members : Env → List ℕ → Option Text → FamilyDb → Result (Option Parent)
attach_group_members env member_ids base_title db =
    let members = filter (is_member member_ids) db.sets in
    let played_date = min_date (filter_map (λ s. s.played_date) members) in
    if ltb (length members) 2
    then ok none
    else attach_members env member_ids played_date
        (or_else (given base_title) (title_of (head? members))) db

abbrev names_set : ℕ → SetFlag → Bool
names_set p f = f.set_id_a == p || elim f.set_id_b [ none ↦ false | some b ↦ b == p ]

-- DELETE FROM sets WHERE id = p: tracks, links and flags cascade, children lose their parent.
unfoldable pub delete_set : ℕ → FamilyDb → FamilyDb
delete_set p db = record db {
  sets =
      update_where (is_child_of p) (λ s. record s { parent_set_id = none })
        (delete_where (has_id p) db.sets);
  set_tracks = delete_where (λ t. t.set_id == p) db.set_tracks;
  set_artists = delete_where (λ l. l.set_id == p) db.set_artists;
  set_flags = delete_where (names_set p) db.set_flags;
}

-- DELETE FROM sets WHERE id = p AND is_virtual
abbrev pub delete_virtual : ℕ → FamilyDb → FamilyDb
delete_virtual p db = if is_virtual_set (get_set p db) then delete_set p db else db

abbrev pub orphan : (DjSet → Bool) → FamilyDb → FamilyDb
orphan q db = record db { sets = update_where q (λ s. record s { parent_set_id = none }) db.sets }

pub record Detached : Type 0 where
  pub parent_id : ℕ
  pub db : FamilyDb

-- The siblings are what is left of the children once the set itself has no parent.
abbrev pub collapse : Env → ℕ → FamilyDb → FamilyDb
collapse env p db =
    if leb (length (filter (is_child_of p) db.sets)) 1
    then delete_virtual p (orphan (is_child_of p) db)
    else (materialize_parent env p db).db

unfoldable pub detach_set_from_parent : Env → ℕ → FamilyDb → Result Detached
detach_set_from_parent env i db = do
  dj_set ← or_raise (get_set i db) lookup_error
  p ← or_raise dj_set.parent_set_id value_error
  ok (record { parent_id = p; db = collapse env p (orphan (has_id i) db) })
