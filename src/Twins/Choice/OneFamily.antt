-- ===== src/Twins/Choice/OneFamily.antt =====
-- A choice to attach outside the video step is a choice of one family.
use diggy.Prelude.{
  ℕ, ◌≡◌, ◌⊎◌, refl, ◌∙◌, sym, ap, subst, Bool, true, false, Option, none, some, List, [], ◌∷◌, map,
  arith, ◌==◌, if◌then◌else◌, or_else, get_or, length, filter, All, All-filter, All-filter_self,
  All-imp, All-of, All-both, Bool-cases, inl, inr,
}
use mathlib.Core.List.{Memᴰ}
use diggy.Prelude.Distinct.{has, unseen}
use diggy.Families.Rows.{DjSet}
use diggy.Twins.Choice.{
  Evaluated, Choice, is_youtube, family, rank, attaches, reviews, least, lower_id, closer,
  lowest_id, attach_to, of_best_rank, best_rank_of, several_families, ambiguous_choice, contend,
  review_of, by_video, by_date, contested_of, choose,
}

module _ {ℓ} (P : Evaluated → Type ℓ) where
  pub All-least :
      (lt : Evaluated → Evaluated → Bool) (e : Evaluated) (es : List Evaluated)
      → P e
      → All P es
      → P (least lt e es)
  All-least lt e [] h hs = h
  All-least lt e (x ∷ es) h (k, ks) = elim (Bool-cases (lt x e)) [
    | inl c ↦ rw c (All-least lt x es k ks)
    | inr c ↦ rw c (All-least lt e es h ks)
  ]

  pub attach_to-target :
      (es : List Evaluated) (c : Choice) → All P es → attach_to es ≡ some c → P c.target
  unfolding lowest_id
  attach_to-target [] c h e = ground arith
  attach_to-target (x ∷ es) c (h, hs) e =
      subst P (ap (λ o. (get_or o c).target) e) (All-least lower_id x es h hs)

  pub All-of_best_rank : (es : List Evaluated) → All P es → All P (of_best_rank es)
  All-of_best_rank [] h = tt
  All-of_best_rank (e ∷ es) h = All-filter P (λ x. rank x == best_rank_of (rank e) es) (e ∷ es) h

-- elements of a list that brings nothing unseen
all_seen :
    (f : Evaluated → ℕ) (seen : List ℕ) (es : List Evaluated)
    → length (unseen ◌==◌ seen (map f es)) ≡ 0
    → All (λ e. has ◌==◌ (f e) seen ≡ true) es
all_seen f seen [] h = tt
all_seen f seen (e ∷ es) h = elim (Bool-cases (has ◌==◌ (f e) seen)) [
  | inl c ↦ (c, all_seen f seen es (ground (arith, c)))
  | inr c ↦ absurd (ground (arith, c))
]

same_family :
    (e : Evaluated) (es : List Evaluated)
    → several_families (e ∷ es) ≡ false
    → All (λ x. family x.row ≡ family e.row) (e ∷ es)
same_family e es h = (
  refl,
  All-imp (λ x. has ◌==◌ (family x.row) (family e.row ∷ []) ≡ true) _ es (λ x k. ground arith)
      (all_seen (λ x. family x.row) (family e.row ∷ []) es (ground arith)),
)

-- The choice between candidates that come down to one family.
contend-OneFamily :
    (row : DjSet) (contested : List Evaluated) (c : Choice)
    → contend row contested ≡ some c
    → c.attached ≡ true
    → All (λ e. family e.row ≡ family c.target.row) contested
unfolding contend
contend-OneFamily row [] c h a = tt
contend-OneFamily row (e ∷ es) c h a = elim (Bool-cases (several_families (e ∷ es))) [
  | inl s ↦
      let k : ambiguous_choice row (e ∷ es) ≡ some c = ground (arith, s) in
      absurd (ground (arith, ap (λ o. (get_or o c).attached) k))
  | inr s ↦
      let k : attach_to (of_best_rank (e ∷ es)) ≡ some c = ground (arith, s) in
      let one = same_family e es s in
      let t =
        attach_to-target (λ x. family x.row ≡ family e.row) (of_best_rank (e ∷ es)) c
          (All-of_best_rank (λ x. family x.row ≡ family e.row) (e ∷ es) one) k in
      All-imp (λ x. family x.row ≡ family e.row) _ (e ∷ es) (λ x q. q ∙ sym t) one
]

pub contend-target {ℓ} :
    (P : Evaluated → Type ℓ) (row : DjSet) (contested : List Evaluated) (c : Choice)
    → All P contested
    → contend row contested ≡ some c
    → P c.target
unfolding contend
contend-target P row [] c h e = ground arith
contend-target P row (x ∷ es) c (h, hs) e = elim (Bool-cases (several_families (x ∷ es))) [
  | inl s ↦
      let k : ambiguous_choice row (x ∷ es) ≡ some c = ground (arith, s) in
      subst P (ap (λ o. (get_or o c).target) k) (All-least P (closer row) x es h hs)
  | inr s ↦
      let k : attach_to (of_best_rank (x ∷ es)) ≡ some c = ground (arith, s) in
      attach_to-target P (of_best_rank (x ∷ es)) c (All-of_best_rank P (x ∷ es) (h, hs)) k
]

pub or_else_cases :
    (first second : Option Choice) (c : Choice)
    → or_else first second ≡ some c
    → (first ≡ some c) ⊎ (second ≡ some c)
or_else_cases none second c h = inr h
or_else_cases (some d) second c h = inl h

-- what a choice to attach rests on
pub data Settled (row : DjSet) (evaluated : List Evaluated) (c : Choice) : Type 0 where
  same_video : rank c.target ≡ 0 → Settled row evaluated c
  same_date : is_youtube row ≡ true → rank c.target ≡ 1 → Settled row evaluated c
  one_family :
      All (λ e. family e.row ≡ family c.target.row) (contested_of row (filter attaches evaluated))
      → Settled row evaluated c

-- a candidate of the call that was decided to attach
abbrev pub IsCandidate : List Evaluated → Evaluated → Type 0
IsCandidate evaluated e = Memᴰ e evaluated × (attaches e ≡ true)

found-IsCandidate :
    (evaluated : List Evaluated) → All (IsCandidate evaluated) (filter attaches evaluated)
found-IsCandidate evaluated =
    All-both (λ e. Memᴰ e evaluated) (λ e. attaches e ≡ true) (filter attaches evaluated)
      (All-filter (λ e. Memᴰ e evaluated) attaches evaluated
        (All-of (λ e. Memᴰ e evaluated) evaluated (λ e m. m)))
      (All-filter_self attaches evaluated)

by_date-Settled :
    (row : DjSet) (evaluated : List Evaluated) (c : Choice)
    → (if is_youtube row then attach_to (by_date (filter attaches evaluated)) else none) ≡ some c
    → IsCandidate evaluated c.target × Settled row evaluated c
by_date-Settled row evaluated c h = elim (Bool-cases (is_youtube row)) [
  | inl y ↦
      let found = filter attaches evaluated in
      let k : attach_to (by_date found) ≡ some c = ground (arith, y) in
      (
        attach_to-target (IsCandidate evaluated) (by_date found) c
            (All-filter (IsCandidate evaluated) (λ e. rank e == 1) found
              (found-IsCandidate evaluated))
            k,
        same_date y (
            attach_to-target (λ e. rank e ≡ 1) (by_date found) c
              (All-imp (λ e. (rank e == 1) ≡ true) (λ e. rank e ≡ 1) (by_date found)
                (λ e q. ground arith) (All-filter_self (λ e. rank e == 1) found))
              k),
      )
  | inr n ↦ absurd (ground (arith, n))
]

contested-IsCandidate :
    (row : DjSet) (evaluated : List Evaluated)
    → All (IsCandidate evaluated) (contested_of row (filter attaches evaluated))
unfolding contested_of
contested-IsCandidate row evaluated = elim (Bool-cases (is_youtube row)) [
  | inl y ↦ rw y (
      All-filter (IsCandidate evaluated) (λ e. rank e == 2) (filter attaches evaluated)
        (found-IsCandidate evaluated))
  | inr n ↦ rw n (found-IsCandidate evaluated)
]

not_attached : (es : List Evaluated) (c : Choice) → review_of es ≡ some c → c.attached ≡ false
not_attached [] c h = ground arith
not_attached (e ∷ es) c h = sym (ap (λ o. (get_or o c).attached) h)

-- A choice to attach takes a candidate that was decided to attach, by the video, or for a YouTube
-- set by the date, or else all candidates that contend are of its family.
pub choose-Settled :
    (row : DjSet) (evaluated : List Evaluated) (c : Choice)
    → choose row evaluated ≡ some c
    → c.attached ≡ true
    → IsCandidate evaluated c.target × Settled row evaluated c
unfolding choose
choose-Settled row evaluated c h a =
    let found = filter attaches evaluated in
    elim (or_else_cases (attach_to (by_video found)) _ c h) [
      | inl k ↦ (
        attach_to-target (IsCandidate evaluated) (by_video found) c
            (All-filter (IsCandidate evaluated) (λ e. rank e == 0) found
              (found-IsCandidate evaluated))
            k,
        same_video (
            attach_to-target (λ e. rank e ≡ 0) (by_video found) c
              (All-imp (λ e. (rank e == 0) ≡ true) (λ e. rank e ≡ 0) (by_video found)
                (λ e q. ground arith) (All-filter_self (λ e. rank e == 0) found))
              k),
      )
      | inr m ↦
          elim (or_else_cases (if is_youtube row then attach_to (by_date found) else none) _ c m) [
            | inl k ↦ by_date-Settled row evaluated c k
            | inr n ↦ elim (or_else_cases (contend row (contested_of row found)) _ c n) [
              | inl k ↦ (
                contend-target (IsCandidate evaluated) row (contested_of row found) c
                    (contested-IsCandidate row evaluated) k,
                one_family (contend-OneFamily row (contested_of row found) c k a),
              )
              | inr k ↦
                  absurd
                    (ground (arith, a, not_attached (of_best_rank (filter reviews evaluated)) c k))
            ]
          ]
    ]
