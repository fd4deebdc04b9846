-- ===== src/Cohort/Tier.antt =====
-- `compute_tier` of server/workers/cohort.py and its thresholds.
use diggy.Prelude.{
  ℕ, ◌≡◌, ◌≢◌, ◌≤◌, Bool, true, ◌&&◌, ◌||◌, Option, none, some, arith, ltb, leb, if◌then◌else◌,
}
use diggy.Cohort.Rows.{Signals}

abbrev pub sets_12m_t1 : ℕ
sets_12m_t1 = 3

abbrev pub sets_12m_deep : ℕ
sets_12m_deep = 2

abbrev pub catalog_deep : ℕ
catalog_deep = 10

abbrev pub catalog_t2 : ℕ
catalog_t2 = 10

abbrev pub sets_12m_t2 : ℕ
sets_12m_t2 = 1

unfoldable pub compute_tier : Signals → Option ℕ
compute_tier s =
    let is_deep = leb catalog_deep s.nb_catalog in
    if ltb 0 s.nb_lib
      || s.followed
      || ltb 0 s.nb_likes
      || leb sets_12m_t1 s.nb_sets_12m
      || leb sets_12m_deep s.nb_sets_12m && is_deep
    then some 1
    else if leb catalog_t2 s.nb_catalog || leb sets_12m_t2 s.nb_sets_12m
    then some 2
    else none

-- Each signal of `s` is at least that of `r`.
pub record AtLeast (r s : Signals) : Type 0 where
  pub nb_lib : r.nb_lib ≤ s.nb_lib
  pub nb_likes : r.nb_likes ≤ s.nb_likes
  pub nb_sets_12m : r.nb_sets_12m ≤ s.nb_sets_12m
  pub nb_catalog : r.nb_catalog ≤ s.nb_catalog
  pub followed : r.followed ≡ true → s.followed ≡ true

-- No signal counts against an artist: with signals that are each at least as strong, an artist of
-- the daily tier stays in it, and an artist of the cohort stays in the cohort.
pub compute_tier_mono :
    (r s : Signals)
    → AtLeast r s
    → (compute_tier r ≡ some 1 → compute_tier s ≡ some 1)
      × (compute_tier r ≢ none → compute_tier s ≢ none)
unfolding compute_tier
compute_tier_mono r s h =
    let lib = h.nb_lib in
    let likes = h.nb_likes in
    let sets = h.nb_sets_12m in
    let tracks = h.nb_catalog in let follow = h.followed in (λ p. ground arith, λ p. ground arith)

pub compute_tier-followed : (s : Signals) → s.followed ≡ true → compute_tier s ≡ some 1
unfolding compute_tier
compute_tier-followed s h = ground arith

-- without any signal there is no tier
pub compute_tier_silent :
    (s : Signals)
    → s.nb_lib ≡ 0
    → s.nb_likes ≡ 0
    → s.nb_sets_12m ≡ 0
    → s.nb_catalog ≡ 0
    → s.followed ≡ Bool.false
    → compute_tier s ≡ none
unfolding compute_tier
compute_tier_silent s a b c d e = ground arith
