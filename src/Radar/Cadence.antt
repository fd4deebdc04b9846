-- ===== src/Radar/Cadence.antt =====
-- `_crawl_decision` and `_is_initial_crawl` of server/workers/tasks/radar.py, in seconds.
use diggy.Prelude.{
  ℕ, ◌-◌, ◌*◌, ◌≤◌, ◌≡◌, refl, Bool, true, false, Option, none, some, arith, ltb, if◌then◌else◌,
  or_else,
}

-- CADENCE_SLACK_DAYS is a quarter of a day.
abbrev pub day : ℕ
day = 86400

abbrev pub cadence_slack : ℕ
cadence_slack = 21600

pub data Decision : Type 0 where
  crawl wait : Decision

-- min_days of a playlist that nobody follows, `stable` seconds after its last change
unfoldable pub backoff : ℕ → ℕ
backoff stable =
    if ltb (60 * day) stable then 30 * day else (if ltb (14 * day) stable then 7 * day else day)

-- last_crawled_at against min_days
unfoldable pub elapsed_decision : ℕ → ℕ → Option ℕ → Decision
elapsed_decision now min_seconds none = crawl
elapsed_decision now min_seconds (some crawled) =
    if ltb (min_seconds - cadence_slack) (now - crawled) then crawl else wait

abbrev pub unfollowed : ℕ → Option ℕ → Option ℕ → Decision
unfollowed now none last_crawled_at = crawl
unfollowed now (some reference) last_crawled_at =
    elapsed_decision now (backoff (now - reference)) last_crawled_at

unfoldable pub crawl_decision : ℕ → Bool → Option ℕ → Option ℕ → Option ℕ → Decision
crawl_decision now has_followers last_changed_at created_at last_crawled_at =
    if has_followers
    then elapsed_decision now day last_crawled_at
    else unfollowed now (or_else last_changed_at created_at) last_crawled_at

unfoldable pub is_initial_crawl : Option ℕ → ℕ → Bool
is_initial_crawl none now = true
is_initial_crawl (some crawled) now = ltb crawled (now - 30 * day)

backoff-bounds : (stable : ℕ) → (day ≤ backoff stable) × (backoff stable ≤ 30 * day)
unfolding backoff
backoff-bounds stable = (ground arith, ground arith)

elapsed_decision_wait :
    (now m : ℕ) (crawled : Option ℕ)
    → elapsed_decision now m crawled ≡ wait
    → (last : ℕ) × (crawled ≡ some last) × (now - last ≤ m - cadence_slack)
unfolding elapsed_decision
elapsed_decision_wait now m none h = cc
elapsed_decision_wait now m (some last) h = (last, refl, ground arith)

unfollowed_wait :
    (now : ℕ) (reference crawled : Option ℕ)
    → unfollowed now reference crawled ≡ wait
    → (last : ℕ) × (crawled ≡ some last) × (now - last ≤ 30 * day - cadence_slack)
unfollowed_wait now none crawled h = cc
unfollowed_wait now (some r) crawled h =
    let (last, e, k) = elapsed_decision_wait now (backoff (now - r)) crawled h in
    let (low, high) = backoff-bounds (now - r) in (last, e, omega (arith, k, high))

-- No playlist is abandoned: one that is made to wait was crawled within the last 30 days, and
-- within the last day if someone follows it; one that was never crawled does not wait.
pub crawl_decision_wait :
    (now : ℕ) (followed : Bool) (changed created crawled : Option ℕ)
    → crawl_decision now followed changed created crawled ≡ wait
    → (last : ℕ) × (crawled ≡ some last)
      × (now - last ≤ 30 * day - cadence_slack)
      × (followed ≡ true → now - last ≤ day - cadence_slack)
unfolding crawl_decision
crawl_decision_wait now true changed created crawled h =
    let (last, e, k) = elapsed_decision_wait now day crawled h in
    (last, e, omega (arith, k), λ f. k)
crawl_decision_wait now false changed created crawled h =
    let (last, e, k) = unfollowed_wait now (or_else changed created) crawled h in
    (last, e, k, λ f. cc)
