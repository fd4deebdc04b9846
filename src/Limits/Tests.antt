-- ===== src/Limits/Tests.antt =====
-- The rate limits at small numbers.
use diggy.Prelude.{ℕ, suc, ◌≡◌, refl, min, [], ◌∷◌, arith, ◌==◌, if◌then◌else◌, count}
use diggy.Limits.Bucket.{
  Config, Bucket, max_tokens, new_bucket, refill, wait_ticks, turn, sleep, run, grants,
}
use diggy.Limits.Window.{
  Window, window_index, next_window_delay, Redis, passes, granted_in, granted_in-cap,
}

-- 10 requests in a second of 100 ticks, a token being 10 parts
abbrev deezer : Config
deezer = record { rate = 1; one = 10 }

waiting : Unit {0}
unfolding max_tokens new_bucket refill wait_ticks turn run grants window_index next_window_delay
    passes granted_in
waiting = tt

abbrev almost_empty : Bucket
almost_empty = record { tokens = 12; last_refill = 50 }

one_request : grants deezer 100 (50 ∷ 51 ∷ 58 ∷ []) almost_empty ≡ 2
unfolding waiting
one_request = refl

sleeps :
    turn deezer 100 52 (record { tokens = 2; last_refill = 51 })
    ≡ sleep 7 (record { tokens = 3; last_refill = 52 })
unfolding waiting
sleeps = refl

abbrev beatport : Window
beatport = record { hundredths = 300; cap = 2 }

-- Counters as a function from keys.
abbrev counters : Redis (ℕ → ℕ)
counters = record {
  value = λ s k. s k;
  incr = λ s k j. if j == k then suc (s j) else s j;
  incr_same = λ s k. ground arith;
  incr_other = λ s k j h. ground arith;
}

granted_in-cap_example :
    granted_in counters beatport 4 (4 ∷ 4 ∷ 5 ∷ 4 ∷ []) (λ k. 0)
    ≡ min (count (λ j. j == 4) (4 ∷ 4 ∷ 5 ∷ 4 ∷ [])) 2
granted_in-cap_example = granted_in-cap counters beatport 4 (4 ∷ 4 ∷ 5 ∷ 4 ∷ []) (λ k. 0) refl
