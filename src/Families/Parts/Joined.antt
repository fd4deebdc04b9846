-- ===== src/Families/Parts/Joined.antt =====
-- What `join` plays when a part is put behind the tracks before it.
use diggy.Prelude.{
  ◌≡◌, refl, sym, subst, true, inl, inr, none, some, Option, List, [], ◌∷◌, map, arith, Bool-cases,
  All, All-append,
}
use mathlib.Core.List.{Memᴰ}
use diggy.Prelude.Int.{ℤ}
use diggy.Prelude.Members.{Mem-left, Mem-right, Mem-map}
use diggy.Families.Rows.{Track, Env}
use diggy.Families.Parts.{same_track, shift_track, is_same_as_last, last?, join}

last?-Mem : (merged : List Track) (l : Track) → last? merged ≡ some l → Memᴰ l merged
last?-Mem [] l h = ground arith
last?-Mem (x ∷ []) l h = Memᴰ.head (ground arith)
last?-Mem (x ∷ y ∷ xs) l h = Memᴰ.tail (last?-Mem (y ∷ xs) l h)

-- The track `t` of a part that begins at `d` and plays the tracks `own` is there, at its time, or
-- it is the first of the part and the same track is there already.
pub data Plays (env : Env) (result own : List Track) (d : ℤ) (t : Track) : Type 0 where
  itself : Memᴰ (shift_track d t) result → Plays env result own d t
  repeated :
      (rest : List Track)
      → own ≡ t ∷ rest
      → (u : Track) → Memᴰ u result
      → same_track env u (shift_track d t) ≡ true
      → Plays env result own d t

pub join_keeps :
    (env : Env) (merged ts : List Track) (u : Track) → Memᴰ u merged → Memᴰ u (join env merged ts)
unfolding join
join_keeps env merged [] u m = m
join_keeps env merged (t ∷ ts) u m = Mem-left u merged _ m

same_as_last :
    (env : Env) (merged : List Track) (o : Option Track) (t : Track)
    → last? merged ≡ o
    → is_same_as_last env o t ≡ true
    → (u : Track) × Memᴰ u merged × (same_track env u t ≡ true)
same_as_last env merged none t h k = ground arith
same_as_last env merged (some l) t h k = (l, last?-Mem merged l h, k)

pub All-join {κ} :
    (P : Track → Type κ) (env : Env) (merged ts : List Track)
    → All P merged
    → All P ts
    → All P (join env merged ts)
unfolding join
All-join P env merged [] h k = h
All-join P env merged (t ∷ ts) h (k, ks) =
    elim (Bool-cases (is_same_as_last env (last? merged) t)) [
      | inl e ↦ rw e (All-append P merged ts h ks)
      | inr e ↦ rw e (All-append P merged (t ∷ ts) h (k, ks))
    ]

pub All-map {κ} :
    (P : Track → Type κ) (f : Track → Track) (ts : List Track)
    → ((t : Track) → Memᴰ t ts → P (f t))
    → All P (map f ts)
All-map P f [] h = tt
All-map P f (t ∷ ts) h = (h t (Memᴰ.head refl), All-map P f ts (λ u m. h u (Memᴰ.tail m)))

Plays-first :
    (env : Env) (merged own : List Track) (d : ℤ) (t : Track)
    → Plays env (join env merged (map (shift_track d) (t ∷ own))) (t ∷ own) d t
unfolding join
Plays-first env merged own d t =
    let first = shift_track d t in
    let later = map (shift_track d) own in
    elim (Bool-cases (is_same_as_last env (last? merged) first)) [
      | inl e ↦
          let (u, m, same) = same_as_last env merged (last? merged) first refl e in
          rw e (repeated own refl u (Mem-left u merged later m) same)
      | inr e ↦ rw e (itself (Mem-right first merged (first ∷ later) (Memᴰ.head refl)))
    ]

join_later :
    (env : Env) (merged ts : List Track) (x t : Track)
    → Memᴰ t ts
    → Memᴰ t (join env merged (x ∷ ts))
unfolding join
join_later env merged ts x t m = elim (Bool-cases (is_same_as_last env (last? merged) x)) [
  | inl e ↦ rw e (Mem-right t merged ts m)
  | inr e ↦ rw e (Mem-right t merged (x ∷ ts) (Memᴰ.tail m))
]

pub Plays-joined :
    (env : Env) (merged own : List Track) (d : ℤ) (t : Track)
    → Memᴰ t own
    → Plays env (join env merged (map (shift_track d) own)) own d t
Plays-joined env merged [] d t m = elim m [ ]
Plays-joined env merged (x ∷ own) d t (Memᴰ.head p) =
    subst (λ y. Plays env (join env merged (map (shift_track d) (x ∷ own))) (x ∷ own) d y) (sym p)
      (Plays-first env merged own d x)
Plays-joined env merged (x ∷ own) d t (Memᴰ.tail m) = itself (
    join_later env merged (map (shift_track d) own) (shift_track d x) (shift_track d t)
      (Mem-map (shift_track d) t own m))

pub Plays-more :
    (env : Env) (merged result own : List Track) (d : ℤ) (t : Track)
    → ((u : Track) → Memᴰ u merged → Memᴰ u result)
    → Plays env merged own d t
    → Plays env result own d t
Plays-more env merged result own d t k (itself m) = itself (k (shift_track d t) m)
Plays-more env merged result own d t k (repeated rest f u m e) = repeated rest f u (k u m) e
