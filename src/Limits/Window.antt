-- ===== src/Limits/Window.antt =====
-- `_SharedWindow` of server/workers/rate_limiter.py. The counter lives in Redis; what the code
-- relies on is that INCR adds one to the key and returns the sum, and that a key, which expires
-- five seconds after its window at the earliest, counts from zero before its first INCR and is not
-- reset while its window is current. Instants are in hundredths of a second.
use native.Mathlib.Nat.{mod-add-div', mod-lt, le-div_iff_mul-le, div-lt_iff_lt-mul}
use diggy.Prelude.{
  ℕ, suc, ◌+◌, ◌-◌, ◌*◌, ◌/◌, ◌%◌, ◌≤◌, ◌<◌, ◌≡◌, ◌≢◌, ap, subst, ◌∙◌, min, Bool, List, [], ◌∷◌,
  arith, leb, ◌==◌, if◌then◌else◌, Bool-cases, inl, inr, count,
}

-- `hundredths` of a second in the window, and its cap
pub record Window : Type 0 where
  pub hundredths : ℕ
  pub cap : ℕ

-- the index in the key of `_key`
unfoldable pub window_index : Window → ℕ → ℕ
window_index w now = now / w.hundredths

-- `_next_window_delay`
unfoldable pub next_window_delay : Window → ℕ → ℕ
next_window_delay w now = w.hundredths - now % w.hundredths + 1

-- A process that sleeps that long wakes up in the next window, and in no later one.
pub next_window_delay_lem :
    (w : Window) (now : ℕ)
    → 2 ≤ w.hundredths
    → window_index w (now + next_window_delay w now) ≡ window_index w now + 1
unfolding window_index next_window_delay
next_window_delay_lem w now h =
    let d = w.hundredths in
    let q = now / d in
    let at = mod-add-div' now d in
    let small : now % d < d = mod-lt now (omega (arith, h)) in
    let reached : now + (d - now % d + 1) ≡ q * d + d + 1 = omega (arith, at, small) in
    let low =
      (le-div_iff_mul-le {k = d} {x = q + 1} {y = now + (d - now % d + 1)} (omega (arith, h))).1
        (omega (arith, reached)) in
    let high =
      (div-lt_iff_lt-mul {k = d} {x = now + (d - now % d + 1)} {y = q + 2} (omega (arith, h))).1
        (omega (arith, reached, h)) in
    omega (arith, low, high)

-- The counters of the keys of one source.
pub record Redis (State : Type 0) : Type 0 where
  pub value : State → ℕ → ℕ
  pub incr : State → ℕ → State
  pub incr_same : (s : State) (k : ℕ) → value (incr s k) k ≡ suc (value s k)
  pub incr_other : (s : State) (k j : ℕ) → j ≢ k → value (incr s k) j ≡ value s j

module _ {State : Type 0} (redis : Redis State) (w : Window) where
  -- One turn of the loop of `wait`, in the window `k`: whether the request is let through.
  unfoldable pub passes : State → ℕ → Bool
  passes s k = leb (redis.value (redis.incr s k) k) w.cap

  -- The turns of all processes in the order of their INCRs, each with its window, and how many
  -- requests they let through in the window `k`.
  unfoldable pub granted_in : ℕ → List ℕ → State → ℕ
  granted_in k [] s = 0
  granted_in k (j ∷ turns) s =
      (if j == k then (if passes s j then 1 else 0) else 0) + granted_in k turns (redis.incr s j)

  granted_in-eq :
      (k : ℕ) (turns : List ℕ) (s : State)
      → granted_in k turns s ≡ min (count (λ j. j == k) turns) (w.cap - redis.value s k)
  unfolding granted_in passes
  granted_in-eq k [] s = omega arith
  granted_in-eq k (j ∷ turns) s =
      let later = granted_in-eq k turns (redis.incr s j) in
      elim (Bool-cases (j == k)) [
        | inl e ↦
            let p : j ≡ k = ground arith in
            let up : redis.value (redis.incr s j) k ≡ suc (redis.value s k) =
              subst (λ i. redis.value (redis.incr s j) i ≡ suc (redis.value s i)) p
                (redis.incr_same s j) in
            let here : redis.value (redis.incr s j) j ≡ suc (redis.value s k) =
              redis.incr_same s j ∙ ap (λ i. suc (redis.value s i)) p in
            ground (arith, later, up, here)
        | inr e ↦ let same = redis.incr_other s j k (ground arith) in ground (arith, later, same)
      ]

  -- However the processes interleave, a window lets through as many requests as ask, up to its
  -- cap, and no more.
  pub granted_in-cap :
      (k : ℕ) (turns : List ℕ) (s : State)
      → redis.value s k ≡ 0
      → granted_in k turns s ≡ min (count (λ j. j == k) turns) w.cap
  granted_in-cap k turns s fresh = omega (arith, granted_in-eq k turns s, fresh)
