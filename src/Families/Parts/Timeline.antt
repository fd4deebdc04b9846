-- ===== src/Families/Parts/Timeline.antt =====
-- The parts of a set, put one after the other, keep the order of time.
use diggy.Prelude.{
  ℕ, ◌+◌, ◌≡◌, refl, ap, none, some, Option, List, [], ◌∷◌, ◌++◌, map, arith, Bool-cases, inl, inr,
  All, subst, sym, get_or,
}
use diggy.Prelude.Int.{ℤ, pos, ◌+ℤ◌, ◌≤ℤ◌, +ℤ_parts}
use diggy.Prelude.Sort.{sort_by, All-sort_by, insert_by}
use diggy.Families.Rows.{DjSet, Track, Env}
use diggy.Families.Parts.{
  shift, shift_track, part_le, is_same_as_last, last?, last_timecode, join, parts_from, merge_parts,
}

-- the times from `lo` to `hi` that are known, in order
abbrev pub InOrder : ℤ → List (Option ℤ) → ℤ → Type 0
InOrder lo [] hi = lo ≤ℤ hi
InOrder lo (none ∷ times) hi = InOrder lo times hi
InOrder lo (some z ∷ times) hi = (lo ≤ℤ z) × InOrder z times hi

abbrev pub times : List Track → List (Option ℤ)
times [] = []
times (t ∷ ts) = t.timecode_ms ∷ times ts

-- A part whose duration is known, and whose tracks play in order while it lasts.
pub record IsTimed (tracks : ℕ → List Track) (c : DjSet) : Type 0 where
  pub duration : ℕ
  pub known : c.duration_ms ≡ some duration
  pub in_order : InOrder (pos 0) (times (tracks c.id)) (pos duration)

abbrev pub total_duration : List DjSet → ℕ
total_duration [] = 0
total_duration (c ∷ cs) = get_or c.duration_ms 0 + total_duration cs

InOrder-lower :
    (lo mid hi : ℤ) (ts : List (Option ℤ)) → lo ≤ℤ mid → InOrder mid ts hi → InOrder lo ts hi
InOrder-lower lo mid hi [] h k = omega arith
InOrder-lower lo mid hi (none ∷ ts) h k = InOrder-lower lo mid hi ts h k
InOrder-lower lo mid hi (some z ∷ ts) h (k, ks) = (omega arith, ks)

InOrder-bounds : (lo hi : ℤ) (ts : List (Option ℤ)) → InOrder lo ts hi → lo ≤ℤ hi
InOrder-bounds lo hi [] k = k
InOrder-bounds lo hi (none ∷ ts) k = InOrder-bounds lo hi ts k
InOrder-bounds lo hi (some z ∷ ts) (k, ks) = omega (arith, InOrder-bounds z hi ts ks)

InOrder-tail :
    (lo hi : ℤ) (t : Option ℤ) (ts : List (Option ℤ)) → InOrder lo (t ∷ ts) hi → InOrder lo ts hi
InOrder-tail lo hi none ts k = k
InOrder-tail lo hi (some z) ts (k, ks) = InOrder-lower lo z hi ts k ks

InOrder-append :
    (lo mid hi : ℤ) (xs ys : List (Option ℤ))
    → InOrder lo xs mid
    → InOrder mid ys hi
    → InOrder lo (xs ++ ys) hi
InOrder-append lo mid hi [] ys h k = InOrder-lower lo mid hi ys h k
InOrder-append lo mid hi (none ∷ xs) ys h k = InOrder-append lo mid hi xs ys h k
InOrder-append lo mid hi (some z ∷ xs) ys (h, hs) k = (h, InOrder-append z mid hi xs ys hs k)

InOrder-shift :
    (d lo hi : ℤ) (xs : List (Option ℤ))
    → InOrder lo xs hi
    → InOrder (lo +ℤ d) (map (shift d) xs) (hi +ℤ d)
InOrder-shift d lo hi [] h = omega (arith, +ℤ_parts)
InOrder-shift d lo hi (none ∷ xs) h = InOrder-shift d lo hi xs h
InOrder-shift d lo hi (some z ∷ xs) (h, hs) = (omega (arith, +ℤ_parts), InOrder-shift d z hi xs hs)

times-append : (xs ys : List Track) → times (xs ++ ys) ≡ times xs ++ times ys
times-append [] ys = refl
times-append (x ∷ xs) ys = ap (λ ts. x.timecode_ms ∷ ts) (times-append xs ys)

times-shift : (d : ℤ) (xs : List Track) → times (map (shift_track d) xs) ≡ map (shift d) (times xs)
times-shift d [] = refl
times-shift d (x ∷ xs) = ap (λ ts. shift d x.timecode_ms ∷ ts) (times-shift d xs)

InOrder-upper :
    (lo mid hi : ℤ) (ts : List (Option ℤ)) → mid ≤ℤ hi → InOrder lo ts mid → InOrder lo ts hi
InOrder-upper lo mid hi [] h k = omega arith
InOrder-upper lo mid hi (none ∷ ts) h k = InOrder-upper lo mid hi ts h k
InOrder-upper lo mid hi (some z ∷ ts) h (k, ks) = (k, InOrder-upper z mid hi ts h ks)

InOrder-concat :
    (lo mid hi : ℤ) (xs ys : List Track)
    → InOrder lo (times xs) mid
    → InOrder mid (times ys) hi
    → InOrder lo (times (xs ++ ys)) hi
InOrder-concat lo mid hi xs ys h k =
    subst (λ ts. InOrder lo ts hi) (sym (times-append xs ys))
      (InOrder-append lo mid hi (times xs) (times ys) h k)

InOrder-join :
    (env : Env) (lo mid hi : ℤ) (merged ts : List Track)
    → InOrder lo (times merged) mid
    → InOrder mid (times ts) hi
    → InOrder lo (times (join env merged ts)) hi
unfolding join
InOrder-join env lo mid hi merged [] h k = InOrder-upper lo mid hi (times merged) k h
InOrder-join env lo mid hi merged (t ∷ ts) h k =
    elim (Bool-cases (is_same_as_last env (last? merged) t)) [
      | inl e ↦
          rw e
            (InOrder-concat lo mid hi merged ts h (InOrder-tail mid hi t.timecode_ms (times ts) k))
      | inr e ↦ rw e (InOrder-concat lo mid hi merged (t ∷ ts) h k)
    ]

module _ (env : Env) (tracks : ℕ → List Track) where
  parts_from-InOrder :
      (cs : List DjSet) (merged : List Track) (offset known : ℤ)
      → All (IsTimed tracks) cs
      → InOrder (pos 0) (times merged) offset
      → InOrder
          (pos 0)
          (times (parts_from env tracks cs merged offset known))
          (offset +ℤ pos (total_duration cs))
  unfolding parts_from
  parts_from-InOrder [] merged offset known h k =
      InOrder-upper (pos 0) offset (offset +ℤ pos 0) (times merged) (omega (arith, +ℤ_parts)) k
  parts_from-InOrder (c ∷ cs) merged offset known (h, hs) k =
      let own = tracks c.id in
      let adjusted = map (shift_track offset) own in
      let known' = last_timecode known adjusted in
      let shifted : InOrder offset (times adjusted) (offset +ℤ pos h.duration) =
        subst (λ ts. InOrder offset ts (offset +ℤ pos h.duration)) (sym (times-shift offset own))
          (InOrder-lower offset (pos 0 +ℤ offset) (offset +ℤ pos h.duration)
            (map (shift offset) (times own)) (omega (arith, +ℤ_parts))
            (InOrder-upper (pos 0 +ℤ offset) (pos h.duration +ℤ offset) (offset +ℤ pos h.duration)
              (map (shift offset) (times own)) (omega (arith, +ℤ_parts))
              (InOrder-shift offset (pos 0) (pos h.duration) (times own) h.in_order))) in
      let joined =
        InOrder-join env (pos 0) offset (offset +ℤ pos h.duration) merged adjusted k shifted in
      rw h.known (
        InOrder-upper (pos 0) ((offset +ℤ pos h.duration) +ℤ pos (total_duration cs))
          (offset +ℤ pos (h.duration + total_duration cs))
          (times
            (parts_from env tracks cs (join env merged adjusted) (offset +ℤ pos h.duration) known'))
          (omega (arith, +ℤ_parts))
          (parts_from-InOrder cs (join env merged adjusted) (offset +ℤ pos h.duration) known' hs
            joined))

  total_duration-insert :
      (c : DjSet) (cs : List DjSet)
      → total_duration (insert_by part_le c cs) ≡ get_or c.duration_ms 0 + total_duration cs
  total_duration-insert c [] = refl
  total_duration-insert c (d ∷ cs) = ground (arith, total_duration-insert c cs)

  total_duration-sort : (cs : List DjSet) → total_duration (sort_by part_le cs) ≡ total_duration cs
  total_duration-sort [] = refl
  total_duration-sort (c ∷ cs) =
      omega (arith, total_duration-insert c (sort_by part_le cs), total_duration-sort cs)

  -- Where every part has a known duration and plays its tracks in order while it lasts, the known
  -- times of the merged tracklist are in order from the start to the sum of the durations.
  pub merge_parts-InOrder :
      (children : List DjSet)
      → All (IsTimed tracks) children
      → InOrder (pos 0) (times (merge_parts env children tracks)) (pos (total_duration children))
  unfolding merge_parts
  merge_parts-InOrder children h =
      InOrder-upper (pos 0) (pos 0 +ℤ pos (total_duration (sort_by part_le children)))
        (pos (total_duration children))
        (times (parts_from env tracks (sort_by part_le children) [] (pos 0) (pos 0)))
        (omega (arith, +ℤ_parts, total_duration-sort children))
        (parts_from-InOrder (sort_by part_le children) [] (pos 0) (pos 0)
          (All-sort_by part_le (IsTimed tracks) children h) (omega arith))
