-- ===== src/Families/Metadata.antt =====
-- What a virtual parent takes from its children: `pick_best_parent_title`, `_most_frequent`,
-- `_pick_parent_channel`, `_pick_parent_source_url`, and `sync_parent_metadata`.
use diggy.Prelude.{
  ℕ, ◌+◌, Bool, true, false, ◌&&◌, ◌||◌, Option, none, some, List, [], ◌∷◌, ◌++◌, map, leb, ltb,
  ◌==◌, str_eq, if◌then◌else◌, is_some, get_or, length, count, filter, filter_map, any, all, find?,
  update_where,
}
use diggy.Prelude.Text.{Text, text_eq}
use diggy.Prelude.Distinct.{first_seen, has}
use diggy.Prelude.Sort.{sort_by}
use diggy.Sets.Titles.{split_from}
use diggy.Families.Rows.{DjSet, SetArtist, FamilyDb, Env, has_id, get_set, is_child_of}
use diggy.Families.Parts.{nonempty}

-- words of two letters or more
abbrev is_significant : Env → Text → Bool
is_significant env word = leb 2 (length word) && all env.is_alpha word

unfoldable pub significant_tokens : Env → Text → ℕ
significant_tokens env title = count (is_significant env) (split_from [] title)

-- key > best_key
abbrev title_gt : Env → Text → Text → Bool
title_gt env a b =
    ltb (significant_tokens env b) (significant_tokens env a)
    || significant_tokens env a == significant_tokens env b && ltb (length b) (length a)

abbrev best_title : Env → Text → List Text → Text
best_title env best [] = best
best_title env best (t ∷ ts) = best_title env (if title_gt env t best then t else best) ts

unfoldable pub pick_best_parent_title : Env → List Text → Text
pick_best_parent_title env [] = []
pick_best_parent_title env ([] ∷ ts) = pick_best_parent_title env ts
pick_best_parent_title env ((c ∷ t) ∷ ts) = best_title env (c ∷ t) (filter nonempty ts)

abbrev first_max : (Text → ℕ) → Text → List Text → Text
first_max n best [] = best
first_max n best (t ∷ ts) = first_max n (if ltb (n best) (n t) then t else best) ts

abbrev occurrences : List Text → Text → ℕ
occurrences values t = count (λ u. text_eq u t) values

unfoldable pub most_frequent : List Text → Option Text
most_frequent [] = none
most_frequent (t ∷ ts) = some (first_max (occurrences (t ∷ ts)) t (first_seen text_eq (t ∷ ts)))

-- a text that is neither NULL nor empty
abbrev pub given : Option Text → Option Text
given none = none
given (some []) = none
given (some (c ∷ t)) = some (c ∷ t)

abbrev proper : Env → Option Text → Option Text
proper env none = none
proper env (some t) = if env.is_raw_channel_id t then none else given (some t)

abbrev named_channel : Env → DjSet → Option Text
named_channel env c = proper env c.channel

abbrev same_text : Option Text → Option Text → Bool
same_text none none = true
same_text (some a) (some b) = text_eq a b
same_text _ _ = false

abbrev canonical_of : Env → Option Text → DjSet → Option Text
canonical_of env channel c =
    if is_some (named_channel env c) && same_text c.channel channel
    then proper env c.channel_canonical
    else none

pub record Channel : Type 0 where
  pub channel : Option Text
  pub canonical : Option Text

unfoldable pub pick_parent_channel : Env → List DjSet → Channel
pick_parent_channel env children =
    let channel = most_frequent (filter_map (named_channel env) children) in
    record {
      channel = channel;
      canonical = most_frequent (filter_map (canonical_of env channel) children);
    }

-- str.lower on ASCII; no other character becomes one of the texts sought here
abbrev lower : ℕ → ℕ
lower c = if leb b'A' c && leb c b'Z' then c + 32 else c

abbrev starts_with : Text → Text → Bool
starts_with [] s = true
starts_with (c ∷ p) [] = false
starts_with (c ∷ p) (d ∷ s) = c == d && starts_with p s

-- p in s
abbrev contains : Text → Text → Bool
contains p [] = starts_with p []
contains p (c ∷ s) = starts_with p (c ∷ s) || contains p s

abbrev youtube_com : Text
youtube_com = b'y' ∷ b'o' ∷ b'u' ∷ b't' ∷ b'u' ∷ b'b' ∷ b'e' ∷ b'.' ∷ b'c' ∷ b'o' ∷ b'm' ∷ []

abbrev youtu_be : Text
youtu_be = b'y' ∷ b'o' ∷ b'u' ∷ b't' ∷ b'u' ∷ b'.' ∷ b'b' ∷ b'e' ∷ []

unfoldable pub is_youtube_child : DjSet → Bool
is_youtube_child c =
    let url = map lower (get_or c.source_url []) in
    str_eq c.source "youtube" || contains youtube_com url || contains youtu_be url

abbrev has_url : DjSet → Bool
has_url c = is_some (given c.source_url)

abbrev url_of : Option DjSet → Option DjSet → Option Text
url_of none none = none
url_of none (some first) = first.source_url
url_of (some c) first = c.source_url

unfoldable pub pick_parent_source_url : List DjSet → Option Text
pick_parent_source_url children =
    url_of (find? (λ c. has_url c && is_youtube_child c) children) (find? has_url children)

abbrev only : List ℕ → Option ℕ
only (d ∷ []) = some d
only _ = none

-- a date on which all children that have one agree
unfoldable pub common_date : List DjSet → Option ℕ
common_date children = only (first_seen ◌==◌ (filter_map (λ c. c.event_date) children))

abbrev styles_of : List DjSet → List Text
styles_of [] = []
styles_of (c ∷ cs) = c.styles ++ styles_of cs

-- the copied artwork: a copy that fails leaves the parent without
abbrev donated : Env → ℕ → Option DjSet → Bool
donated env parent_id none = false
donated env parent_id (some donor) = env.copy_object donor.id parent_id

unfoldable pub derive_metadata : Env → List DjSet → DjSet → DjSet
derive_metadata env children parent =
    let channel = pick_parent_channel env children in
    record parent {
      source_url = pick_parent_source_url children;
      channel = channel.channel;
      channel_canonical = channel.canonical;
      event_date = common_date children;
      styles = first_seen text_eq (styles_of children);
      unreliable = all (λ c. c.unreliable) children;
      has_artwork =
          parent.has_artwork || donated env parent.id (find? (λ c. c.has_artwork) children);
    }

abbrev pub linked_to : ℕ → List SetArtist → List ℕ
linked_to p [] = []
linked_to p (l ∷ ls) =
    let rest = linked_to p ls in if l.set_id == p then l.artist_id ∷ rest else rest

-- The loop over the links of the children; `linked` are the artists that the parent has by then.
unfoldable pub new_links : ℕ → List ℕ → List SetArtist → List SetArtist
new_links p linked [] = []
new_links p linked (l ∷ ls) =
    let rest = new_links p linked ls in
    let more = new_links p (l.artist_id ∷ linked) ls in
    if has ◌==◌ l.artist_id linked then rest else record l { set_id = p } ∷ more

abbrev link_le : SetArtist → SetArtist → Bool
link_le a b = leb a.set_id b.set_id

abbrev id_le : DjSet → DjSet → Bool
id_le a b = leb a.id b.id

-- SELECT … WHERE parent_set_id = p ORDER BY id
unfoldable pub children_of : ℕ → FamilyDb → List DjSet
children_of p db = sort_by id_le (filter (is_child_of p) db.sets)

abbrev pub child_links : List DjSet → List SetArtist → List SetArtist
child_links children links = sort_by link_le (filter (λ l. any (has_id l.set_id) children) links)

abbrev pub sync_from : Env → ℕ → List DjSet → FamilyDb → FamilyDb
sync_from env p [] db = db
sync_from env p (c ∷ cs) db = record db {
  sets = update_where (has_id p) (derive_metadata env (c ∷ cs)) db.sets;
  set_artists =
      db.set_artists
      ++ new_links p (linked_to p db.set_artists) (child_links (c ∷ cs) db.set_artists);
}

abbrev pub is_virtual_set : Option DjSet → Bool
is_virtual_set none = false
is_virtual_set (some s) = s.is_virtual

unfoldable pub sync_parent_metadata : Env → ℕ → FamilyDb → FamilyDb
sync_parent_metadata env p db =
    if is_virtual_set (get_set p db) then sync_from env p (children_of p db) db else db
