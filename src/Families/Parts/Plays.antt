-- ===== src/Families/Parts/Plays.antt =====
-- What the parts of a set, put one after the other, play: every track of every part, at its place.
use diggy.Prelude.{
  ℕ, ◌+◌, ◌≤◌, ◌≡◌, refl, ap, sym, subst, Bool, true, false, not, ◌&&◌, List, [], ◌∷◌, map, filter,
  arith, All, All-at, All-of, count, get_or,
}
use mathlib.Core.List.{Memᴰ}
use diggy.Prelude.Int.{ℤ, pos, ◌+ℤ◌}
use diggy.Prelude.Members.{Mem-sort_by, count-Mem}
use diggy.Prelude.Sort.{sort_by, insert_by, IsSorted, sort_by-IsSorted, count-sort_by, All-sort_by}
use diggy.Families.Rows.{DjSet, Track, Env}
use diggy.Families.Parts.{shift_track, part_le, last_timecode, join, parts_from, merge_parts}
use diggy.Families.Parts.Joined.{Plays, join_keeps, All-join, All-map, Plays-joined, Plays-more}
use diggy.Families.Parts.Timeline.{InOrder, times, IsTimed, total_duration, merge_parts-InOrder}

-- the part `d` has the part number of `c`, or neither has one
abbrev pub has_same_part : DjSet → DjSet → Bool
has_same_part c d = part_le c d && part_le d c

-- the time at which the part `c` begins: after all parts with a lower number
abbrev pub start : List DjSet → DjSet → ℕ
start children c = total_duration (filter (λ d. not (part_le c d)) children)

-- a track of a part, at whatever time
pub record IsOfPart (tracks : ℕ → List Track) (children : List DjSet) (u : Track) : Type 0 where
  pub part : DjSet
  pub given : Memᴰ part children
  pub track : Track
  pub played : Memᴰ track (tracks part.id)
  pub time : ℤ
  pub shifted : u ≡ shift_track time track

-- The known times are in order, from the start to the sum of the durations. A part whose number no
-- other has begins after all parts with a lower one, and all its tracks are there. Nothing else is.
pub record IsTimeline (env : Env) (tracks : ℕ → List Track) (children : List DjSet)
    (result : List Track) : Type 0 where
  pub in_order : InOrder (pos 0) (times result) (pos (total_duration children))
  pub plays :
      (c : DjSet)
      → Memᴰ c children
      → count (has_same_part c) children ≤ 1
      → (t : Track) → Memᴰ t (tracks c.id)
      → Plays env result (tracks c.id) (pos (start children c)) t
  pub from_parts : All (IsOfPart tracks children) result

part_total : (a b : DjSet) → part_le a b ≡ false → part_le b a ≡ true
part_total a b h = ground arith

part_trans : (a b c : DjSet) → part_le a b ≡ true → part_le b c ≡ true → part_le a c ≡ true
part_trans a b c h k = ground arith

part_refl : (a : DjSet) → part_le a a ≡ true
part_refl a = ground arith

pos-add : (a b : ℕ) → pos a +ℤ pos b ≡ pos (a + b)
unfolding ◌+ℤ◌
pos-add a b = ground arith

-- In a sorted list, no part after `c` begins before it.
start_first :
    (c : DjSet) (cs : List DjSet)
    → All (λ d. part_le c d ≡ true) cs
    → total_duration (filter (λ d. not (part_le c d)) cs) ≡ 0
start_first c [] h = refl
start_first c (d ∷ cs) (h, hs) = ground (arith, start_first c cs hs)

start-here : (c : DjSet) (cs : List DjSet) → All (λ d. part_le c d ≡ true) cs → start (c ∷ cs) c ≡ 0
start-here c cs h = let r = part_refl c in ground (arith, r, start_first c cs h)

-- A part whose number is its own begins after the first of the sorted parts.
start-after :
    (x c : DjSet) (cs : List DjSet)
    → part_le x c ≡ true
    → Memᴰ c cs
    → count (has_same_part c) (x ∷ cs) ≤ 1
    → start (x ∷ cs) c ≡ get_or x.duration_ms 0 + start cs c
start-after x c cs h m one =
    let again : has_same_part c c ≡ true = let r = part_refl c in ground (arith, r) in
    let here : 1 ≤ count (has_same_part c) cs = count-Mem (has_same_part c) c cs m again in
    let other : has_same_part c x ≡ false = ground (arith, here, one) in
    let later : part_le c x ≡ false = ground (arith, other, h) in ground (arith, later)

module _ (env : Env) (tracks : ℕ → List Track) where
  parts_from_keeps :
      (cs : List DjSet) (merged : List Track) (offset known : ℤ) (u : Track)
      → Memᴰ u merged
      → Memᴰ u (parts_from env tracks cs merged offset known)
  unfolding parts_from
  parts_from_keeps [] merged offset known u m = m
  parts_from_keeps (c ∷ cs) merged offset known u m =
      parts_from_keeps cs _ _ _ u
        (join_keeps env merged (map (shift_track offset) (tracks c.id)) u m)

  parts_from-Plays :
      (cs : List DjSet) (merged : List Track) (o : ℕ) (known : ℤ)
      → All (IsTimed tracks) cs
      → IsSorted part_le cs
      → (c : DjSet) → Memᴰ c cs
      → count (has_same_part c) cs ≤ 1
      → (t : Track) → Memᴰ t (tracks c.id)
      → Plays env
          (parts_from env tracks cs merged (pos o) known)
          (tracks c.id)
          (pos (o + start cs c))
          t
  unfolding parts_from
  parts_from-Plays [] merged o known h sorted c m one t mt = elim m [ ]
  parts_from-Plays (x ∷ cs) merged o known (h, hs) (low, sorted) c (Memᴰ.head p) one t mt =
      let mx = subst (λ y. Memᴰ t (tracks y.id)) p mt in
      let began : o + start (x ∷ cs) c ≡ o =
        subst (λ y. o + start (x ∷ cs) y ≡ o) (sym p) (omega (arith, start-here x cs low)) in
      let result = parts_from env tracks (x ∷ cs) merged (pos o) known in
      subst (λ n. Plays env result (tracks c.id) (pos n) t) (sym began)
        (subst (λ y. Plays env result (tracks y.id) (pos o) t) (sym p)
          (Plays-more env (join env merged (map (shift_track (pos o)) (tracks x.id))) _
            (tracks x.id) (pos o) t (parts_from_keeps cs _ _ _)
            (Plays-joined env merged (tracks x.id) (pos o) t mx)))
  parts_from-Plays (x ∷ cs) merged o known (h, hs) (low, sorted) c (Memᴰ.tail m) one t mt =
      let joined = join env merged (map (shift_track (pos o)) (tracks x.id)) in
      let known' = last_timecode known (map (shift_track (pos o)) (tracks x.id)) in
      let rest =
        parts_from-Plays cs joined (o + h.duration) known' hs sorted c m (ground (arith, one)) t
          mt in
      let began : (o + h.duration) + start cs c ≡ o + start (x ∷ cs) c = omega (
        arith,
        start-after x c cs (All-at (λ d. part_le x d ≡ true) cs low c m) m one,
        ap (λ d. get_or d 0) h.known,
      ) in
      subst
        (λ n.
          Plays env (parts_from env tracks (x ∷ cs) merged (pos o) known) (tracks c.id) (pos n) t)
        began (rw (h.known, pos-add o h.duration) rest)

  parts_from-All {κ} :
      (P : Track → Type κ) (cs : List DjSet) (merged : List Track) (offset known : ℤ)
      → All (λ c. (t : Track) → Memᴰ t (tracks c.id) → (d : ℤ) → P (shift_track d t)) cs
      → All P merged
      → All P (parts_from env tracks cs merged offset known)
  unfolding parts_from
  parts_from-All P [] merged offset known h k = k
  parts_from-All P (c ∷ cs) merged offset known (h, hs) k = parts_from-All P cs _ _ _ hs (
      All-join P env merged (map (shift_track offset) (tracks c.id)) k
        (All-map P (shift_track offset) (tracks c.id) (λ t m. h t m offset)))

  start-insert :
      (c x : DjSet) (cs : List DjSet) → start (insert_by part_le x cs) c ≡ start (x ∷ cs) c
  start-insert c x [] = refl
  start-insert c x (y ∷ cs) = ground (arith, start-insert c x cs)

  start-sort : (c : DjSet) (cs : List DjSet) → start (sort_by part_le cs) c ≡ start cs c
  start-sort c [] = refl
  start-sort c (x ∷ cs) = ground (arith, start-insert c x (sort_by part_le cs), start-sort c cs)

  -- Where every part has a known duration and plays its tracks in order while it lasts, the known
  -- times of the merged tracklist are in order from the start to the sum of the durations, whatever
  -- the order in which the parts are given. Every track of a part whose number no other part has is
  -- there, at its time counted from the end of all parts with a lower number; only the first track
  -- of the part may be left out, where the same track is there already. Nothing but tracks of the
  -- parts, moved in time, is there.
  pub merge_parts-IsTimeline :
      (children : List DjSet)
      → All (IsTimed tracks) children
      → IsTimeline env tracks children (merge_parts env children tracks)
  unfolding merge_parts
  merge_parts-IsTimeline children h = record {
    in_order = merge_parts-InOrder env tracks children h;
    plays = λ c m one t mt.
        subst
          (λ n.
            Plays env (parts_from env tracks (sort_by part_le children) [] (pos 0) (pos 0))
              (tracks c.id) (pos n) t)
          (omega (arith, start-sort c children))
          (parts_from-Plays (sort_by part_le children) [] 0 (pos 0)
            (All-sort_by part_le (IsTimed tracks) children h)
            (sort_by-IsSorted part_le part_total part_trans children) c
            (Mem-sort_by part_le c children m)
            (subst (λ n. n ≤ 1) (sym (count-sort_by part_le (has_same_part c) children)) one) t mt);
    from_parts =
        parts_from-All (IsOfPart tracks children) (sort_by part_le children) [] (pos 0) (pos 0)
          (All-sort_by part_le _ children (
            All-of _ children (λ c m t mt d. record {
              part = c;
              given = m;
              track = t;
              played = mt;
              time = d;
              shifted = refl;
            })))
          tt;
  }
