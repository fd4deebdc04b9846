-- ===== src/Limits/Bucket.antt =====
-- `_TokenBucket` of server/workers/rate_limiter.py. Time passes in ticks, tokens are counted in
-- parts, `rate` parts accrue in a tick, and `one` parts are a token.
use native.Mathlib.Nat.{mod-add-div', mod-lt}
use diggy.Prelude.{
  ℕ, ◌+◌, ◌-◌, ◌*◌, ◌/◌, ◌≤◌, ◌≡◌, ap, sym, subst, ◌∙◌, min, max, Bool, true, false, List, [], ◌∷◌,
  arith, leb, if◌then◌else◌,
}

pub record Config : Type 0 where
  pub rate : ℕ
  pub one : ℕ

pub record Bucket : Type 0 where
  pub tokens : ℕ
  pub last_refill : ℕ

-- max(rate, 1.0), the rate being that of a second of `second` ticks
unfoldable pub max_tokens : Config → ℕ → ℕ
max_tokens c second = max (c.rate * second) c.one

unfoldable pub new_bucket : Config → ℕ → ℕ → Bucket
new_bucket c second now = record { tokens = max_tokens c second; last_refill = now }

unfoldable pub refill : Config → ℕ → ℕ → Bucket → Bucket
refill c second now b = record {
  tokens = min (max_tokens c second) (b.tokens + (now - b.last_refill) * c.rate);
  last_refill = now;
}

-- (1.0 - tokens) / rate, in whole ticks, rounded up
unfoldable pub wait_ticks : Config → Bucket → ℕ
wait_ticks c b = (c.one - b.tokens + (c.rate - 1)) / c.rate

pub data Turn : Type 0 where
  granted : Bucket → Turn
  sleep : ℕ → Bucket → Turn

-- One turn of the loop of `wait`.
unfoldable pub turn : Config → ℕ → ℕ → Bucket → Turn
turn c second now b =
    let full = refill c second now b in
    if leb c.one full.tokens
    then granted (record full { tokens = full.tokens - c.one })
    else sleep (wait_ticks c full) full

abbrev pub bucket_of : Turn → Bucket
bucket_of (granted b) = b
bucket_of (sleep n b) = b

abbrev pub is_granted : Turn → Bool
is_granted (granted b) = true
is_granted (sleep n b) = false

-- The turns of a process at the times of the list, and how many requests they let through.
unfoldable pub run : Config → ℕ → List ℕ → Bucket → Bucket
run c second [] b = b
run c second (now ∷ times) b = run c second times (bucket_of (turn c second now b))

unfoldable pub grants : Config → ℕ → List ℕ → Bucket → ℕ
grants c second [] b = 0
grants c second (now ∷ times) b =
    let t = turn c second now b in
    (if is_granted t then 1 else 0) + grants c second times (bucket_of t)

abbrev pub IsAscending : ℕ → List ℕ → Type 0
IsAscending from [] = Unit
IsAscending from (now ∷ times) = (from ≤ now) × IsAscending now times

abbrev pub last_of : ℕ → List ℕ → ℕ
last_of from [] = from
last_of from (now ∷ times) = last_of now times

turn-tokens :
    (c : Config) (second now : ℕ) (b : Bucket)
    → let t = turn c second now b in
      ((if is_granted t then 1 else 0) * c.one + (bucket_of t).tokens
        ≤ b.tokens + (now - b.last_refill) * c.rate)
      × ((bucket_of t).last_refill ≡ now)
unfolding turn refill
turn-tokens c second now b = (ground arith, ground arith)

last_of-le : (from : ℕ) (times : List ℕ) → IsAscending from times → from ≤ last_of from times
last_of-le from [] h = omega arith
last_of-le from (now ∷ times) (h, hs) = omega (arith, h, last_of-le now times hs)

accrued :
    (from now last rate : ℕ)
    → from ≤ now
    → now ≤ last
    → (now - from) * rate + (last - now) * rate ≡ (last - from) * rate
accrued from now last rate h k =
    let split : (now - from) + (last - now) ≡ last - from = omega arith in
    let whole : (now - from) * rate + (last - now) * rate ≡ ((now - from) + (last - now)) * rate =
      omega arith in
    whole ∙ ap (λ n. n * rate) split

-- In any run of turns the tokens handed out, and those that are left, are no more than those of the
-- bucket at the start and what accrued since: a burst is bounded by the bucket, and the sustained
-- rate by `rate`.
pub grants-bounded :
    (c : Config) (second : ℕ) (times : List ℕ) (b : Bucket)
    → IsAscending b.last_refill times
    → grants c second times b * c.one + (run c second times b).tokens
      ≤ b.tokens + (last_of b.last_refill times - b.last_refill) * c.rate
unfolding grants run
grants-bounded c second [] b h = omega arith
grants-bounded c second (now ∷ times) b (h, hs) =
    let t = turn c second now b in
    let (first, at_now) = turn-tokens c second now b in
    let later =
      grants-bounded c second times (bucket_of t)
        (subst (λ n. IsAscending n times) (sym at_now) hs) in
    let later_from_now : grants c second times (bucket_of t) * c.one
          + (run c second times (bucket_of t)).tokens
        ≤ (bucket_of t).tokens + (last_of now times - now) * c.rate =
      subst
        (λ n.
          grants c second times (bucket_of t) * c.one + (run c second times (bucket_of t)).tokens
          ≤ (bucket_of t).tokens + (last_of n times - n) * c.rate)
        at_now later in
    let time = accrued b.last_refill now (last_of now times) c.rate h (last_of-le now times hs) in
    omega (arith, first, later_from_now, time)

rounded_up : (a r : ℕ) → 1 ≤ r → a ≤ (a + (r - 1)) / r * r
rounded_up a r h = omega (arith, mod-add-div' (a + (r - 1)) r, mod-lt (a + (r - 1)) h)

wait_ticks_lem : (c : Config) (b : Bucket) → 1 ≤ c.rate → c.one ≤ b.tokens + wait_ticks c b * c.rate
unfolding wait_ticks
wait_ticks_lem c b h = omega (arith, rounded_up (c.one - b.tokens) c.rate h)

turn_sleep :
    (c : Config) (second now n : ℕ) (b after : Bucket)
    → turn c second now b ≡ sleep n after
    → (after.last_refill ≡ now) × (n ≡ wait_ticks c after)
unfolding turn refill
turn_sleep c second now n b after e = (ground arith, ground arith)

-- A request that has to wait is let through by the turn after its sleep, so that `wait` returns
-- after one sleep at most where no other request comes in between; the rate must not be zero.
pub turn-granted :
    (c : Config) (second now n : ℕ) (b after : Bucket)
    → 1 ≤ c.rate
    → turn c second now b ≡ sleep n after
    → is_granted (turn c second (now + n) after) ≡ true
unfolding turn refill max_tokens
turn-granted c second now n b after h e =
    let (at_now, ticks) = turn_sleep c second now n b after e in
    let enough = wait_ticks_lem c after h in
    let elapsed : now + n - after.last_refill ≡ n = omega arith in
    let full : c.one ≤ after.tokens + (now + n - after.last_refill) * c.rate =
      rw (elapsed, ticks) (omega (arith, enough)) in
    ground arith
