-- ===== src/CircuitBreaker/ErrorCount/Limits.antt =====
-- ErrorCountCircuitBreaker::Init: the ranges of the settings that it derives.
use polaris_cpp.Base.{◌+◌, ◌<◌, ◌≤◌, ◌^◌, ◌≡◌, ◌⊎◌, true, false, arith}
use polaris_cpp.CircuitBreaker.ErrorCount.{Config, init_settings, not_positive}

-- The values of `int` keys are 32-bit patterns, those of millisecond keys 64-bit ones.
pub record IsConfig (c : Config) : Type 0 where
  pub threshold : c.continuous_error_threshold < 2 ^ 32
  pub window : c.sleep_window < 2 ^ 64
  pub request : c.request_count_after_half_open < 2 ^ 32
  pub success : c.success_count_after_half_open < 2 ^ 32
  pub expired : c.metric_expired_time < 2 ^ 32

-- Whatever the configuration says, the threshold, the request count, the needed successes, the sleep
-- window and the expiry time are positive and in the range of their types.
pub init_settings_positive :
    (c : Config)
    → IsConfig c
    → let s = init_settings c in
      ((0 < s.continue_error_threshold) × (s.continue_error_threshold < 2 ^ 31))
      × ((0 < s.request_count_after_half_open) × (s.request_count_after_half_open < 2 ^ 31))
      × ((0 < s.success_count_half_open_to_close) × (s.success_count_half_open_to_close < 2 ^ 31))
      × ((0 < s.sleep_window) × (0 < s.metric_expired_time) × (s.metric_expired_time < 2 ^ 64))
unfolding init_settings
init_settings_positive c v = (ground arith, ground arith, ground arith, ground arith)

-- If the configured number of successes is positive (an absent key reads as 8), or at least 8
-- requests are let through,
-- the half-open requests are enough to decide: the needed successes are at most the requests, and
-- `error_count_half_open_to_open` is the number of errors after which they are out of reach.
pub init_settings_decides :
    (c : Config)
    → IsConfig c
    → (not_positive c.success_count_after_half_open ≡ false)
      ⊎ (7 < (init_settings c).request_count_after_half_open)
    → let s = init_settings c in
      (s.success_count_half_open_to_close ≤ s.request_count_after_half_open)
      × (s.error_count_half_open_to_open + s.success_count_half_open_to_close
          ≡ s.request_count_after_half_open + 1)
unfolding init_settings
init_settings_decides c v h = (ground arith, ground arith)

-- If the number of successes is configured as a value that is not positive, and the number of
-- requests let through as one from 1 to 7, then more successes are needed than requests are let
-- through, and the first error in the half-open state reaches the error limit, which is not positive.
-- (An absent number of successes reads as 8, which is positive, and is not this case.)
pub init_settings_undecidable :
    (c : Config)
    → IsConfig c
    → not_positive c.success_count_after_half_open ≡ true
    → 0 < c.request_count_after_half_open
    → c.request_count_after_half_open < 8
    → let s = init_settings c in
      (s.request_count_after_half_open < s.success_count_half_open_to_close)
      × (not_positive s.error_count_half_open_to_open ≡ true)
unfolding init_settings
init_settings_undecidable c v unset some_request few = (ground arith, ground arith)
