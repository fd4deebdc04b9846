-- ===== src/Families/Duplicates/Passes.antt =====
-- What the two passes over the tracks of all children keep, and that each leaves one track of a
-- kind.
use diggy.Prelude.{
  ℕ, ◌+◌, ◌≤◌, ◌≡◌, refl, ◌∙◌, Bool, false, not, ◌&&◌, ◌||◌, none, some, List, [], ◌∷◌, arith, ◌==◌,
  is_some, any, count, any-append, count-append, count-zero, Option, Bool-cases, inl, inr, All,
  All-append, if◌then◌else◌,
}
use diggy.Families.Rows.{Track}
use diggy.Families.Duplicates.{has_mtid, put_mtid, with_mtid, without_mtid, by_mtid}

-- at most one of a kind
abbrev pub IsOnce : (Track → Bool) → List Track → Type 0
IsOnce p ts = count p ts ≤ 1

any-put_mtid :
    (j m : ℕ) (t : Track) (best : List Track)
    → t.trackid_music_track_id ≡ some m
    → any (has_mtid j) (put_mtid m t best) ≡ any (has_mtid j) best || m == j
unfolding put_mtid
any-put_mtid j m t [] h = ground arith
any-put_mtid j m t (u ∷ us) h = ground (arith, any-put_mtid j m t us h)

count-put_mtid :
    (j m : ℕ) (t : Track) (best : List Track)
    → t.trackid_music_track_id ≡ some m
    → count (has_mtid j) (put_mtid m t best) ≡ (
        if any (has_mtid j) best || not (m == j)
        then count (has_mtid j) best
        else count (has_mtid j) best + 1)
unfolding put_mtid
count-put_mtid j m t [] h = ground arith
count-put_mtid j m t (u ∷ us) h = ground (arith, count-put_mtid j m t us h)

-- A pass invents no track.
All-put_mtid {κ} :
    (P : Track → Type κ) (m : ℕ) (t : Track) (best : List Track)
    → P t
    → All P best
    → All P (put_mtid m t best)
unfolding put_mtid
All-put_mtid P m t [] h hs = (h, tt)
All-put_mtid P m t (u ∷ us) h (k, hs) = elim (Bool-cases (has_mtid m u)) [
  | inl e ↦ elim (Bool-cases (not (is_some u.timecode_ms) && is_some t.timecode_ms)) [
    | inl f ↦ rw (e, f) (h, hs)
    | inr f ↦ rw (e, f) (k, hs)
  ]
  | inr e ↦ rw e (k, All-put_mtid P m t us h hs)
]

All-with_mtid {κ} :
    (P : Track → Type κ) (o : Option ℕ) (t : Track) (best : List Track)
    → P t
    → All P best
    → All P (with_mtid o t best)
All-with_mtid P none t best h hs = hs
All-with_mtid P (some m) t best h hs = All-put_mtid P m t best h hs

All-without_mtid {κ} :
    (P : Track → Type κ) (o : Option ℕ) (t : Track) (no_mtid : List Track)
    → P t
    → All P no_mtid
    → All P (without_mtid o t no_mtid)
All-without_mtid P none t no_mtid h hs = All-append P no_mtid (t ∷ []) hs (h, tt)
All-without_mtid P (some m) t no_mtid h hs = hs

pub All-by_mtid {κ} :
    (P : Track → Type κ) (ts best no_mtid : List Track)
    → All P best
    → All P no_mtid
    → All P ts
    → All P (by_mtid best no_mtid ts)
unfolding by_mtid
All-by_mtid P [] best no_mtid hb hn h = All-append P best no_mtid hb hn
All-by_mtid P (t ∷ ts) best no_mtid hb hn (h, hs) =
    All-by_mtid P ts (with_mtid t.trackid_music_track_id t best)
      (without_mtid t.trackid_music_track_id t no_mtid) (All-with_mtid P _ t best h hb)
      (All-without_mtid P _ t no_mtid h hn) hs

any-with_mtid :
    (j : ℕ) (o : Option ℕ) (t : Track) (best : List Track)
    → t.trackid_music_track_id ≡ o
    → any (has_mtid j) (with_mtid o t best) ≡ any (has_mtid j) best || has_mtid j t
any-with_mtid j none t best h = ground arith
any-with_mtid j (some m) t best h = ground (arith, any-put_mtid j m t best h)

any-without_mtid :
    (j : ℕ) (o : Option ℕ) (t : Track) (no_mtid : List Track)
    → t.trackid_music_track_id ≡ o
    → any (has_mtid j) (without_mtid o t no_mtid) ≡ any (has_mtid j) no_mtid
any-without_mtid j none t no_mtid h = any-append (has_mtid j) no_mtid (t ∷ []) ∙ ground arith
any-without_mtid j (some m) t no_mtid h = refl

count-with_mtid :
    (j : ℕ) (o : Option ℕ) (t : Track) (best : List Track)
    → t.trackid_music_track_id ≡ o
    → IsOnce (has_mtid j) best
    → IsOnce (has_mtid j) (with_mtid o t best)
count-with_mtid j none t best h k = k
count-with_mtid j (some m) t best h k =
    ground (arith, count-put_mtid j m t best h, count-zero (has_mtid j) best)

-- Every id is still there,
pub any-by_mtid :
    (j : ℕ) (ts best no_mtid : List Track)
    → any (has_mtid j) no_mtid ≡ false
    → any (has_mtid j) (by_mtid best no_mtid ts) ≡ any (has_mtid j) best || any (has_mtid j) ts
unfolding by_mtid
any-by_mtid j [] best no_mtid h = any-append (has_mtid j) best no_mtid ∙ ground arith
any-by_mtid j (t ∷ ts) best no_mtid h =
    any-by_mtid j ts (with_mtid t.trackid_music_track_id t best)
      (without_mtid t.trackid_music_track_id t no_mtid)
      (any-without_mtid j t.trackid_music_track_id t no_mtid refl ∙ h)
    ∙ ground (arith, any-with_mtid j t.trackid_music_track_id t best refl)

-- and only once,
pub count-by_mtid :
    (j : ℕ) (ts best no_mtid : List Track)
    → any (has_mtid j) no_mtid ≡ false
    → IsOnce (has_mtid j) best
    → IsOnce (has_mtid j) (by_mtid best no_mtid ts)
unfolding by_mtid
count-by_mtid j [] best no_mtid h k =
    omega (arith, count-append (has_mtid j) best no_mtid, count-zero (has_mtid j) no_mtid h, k)
count-by_mtid j (t ∷ ts) best no_mtid h k =
    count-by_mtid j ts (with_mtid t.trackid_music_track_id t best)
      (without_mtid t.trackid_music_track_id t no_mtid)
      (any-without_mtid j t.trackid_music_track_id t no_mtid refl ∙ h)
      (count-with_mtid j t.trackid_music_track_id t best refl k)

-- and so is every track that has none.
abbrev pub unidentified : (Track → Bool) → Track → Bool
unidentified q t = not (is_some t.trackid_music_track_id) && q t

count-put_unidentified :
    (q : Track → Bool) (m : ℕ) (t : Track) (best : List Track)
    → t.trackid_music_track_id ≡ some m
    → count (unidentified q) (put_mtid m t best) ≡ count (unidentified q) best
unfolding put_mtid
count-put_unidentified q m t [] h = ground arith
count-put_unidentified q m t (u ∷ us) h = ground (arith, count-put_unidentified q m t us h)

count-with_unidentified :
    (q : Track → Bool) (o : Option ℕ) (t : Track) (best no_mtid : List Track)
    → t.trackid_music_track_id ≡ o
    → count (unidentified q) (with_mtid o t best)
        + count (unidentified q) (without_mtid o t no_mtid)
      ≡ count (unidentified q) best
        + count (unidentified q) no_mtid
        + (if unidentified q t then 1 else 0)
count-with_unidentified q none t best no_mtid h =
    omega (arith, count-append (unidentified q) no_mtid (t ∷ []))
count-with_unidentified q (some m) t best no_mtid h =
    ground (arith, count-put_unidentified q m t best h)

pub count-by_mtid-unidentified :
    (q : Track → Bool) (ts best no_mtid : List Track)
    → count (unidentified q) (by_mtid best no_mtid ts)
      ≡ count (unidentified q) best + count (unidentified q) no_mtid + count (unidentified q) ts
unfolding by_mtid
count-by_mtid-unidentified q [] best no_mtid =
    omega (arith, count-append (unidentified q) best no_mtid)
count-by_mtid-unidentified q (t ∷ ts) best no_mtid = omega (
  arith,
  count-by_mtid-unidentified q ts (with_mtid t.trackid_music_track_id t best)
      (without_mtid t.trackid_music_track_id t no_mtid),
  count-with_unidentified q t.trackid_music_track_id t best no_mtid refl,
)
