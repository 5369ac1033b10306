-- ===== src/CircuitBreaker/RateTests.antt =====
-- The theorems on ErrorRateCircuitBreaker at concrete inputs. A rate is a number of percent here.
use polaris_cpp.Base.{
  ℕ, ◌+◌, ◌*◌, ◌-◌, ◌/◌, ◌≡◌, refl, inl, true, List, [], ◌∷◌, arith, nat_key, leb, add32, ◌||◌,
  ◌==◌, lookup, insert, ℕ_discrete,
}
use polaris_cpp.CircuitBreaker.Status.{
  close, half_open, opened, CircuitBreakerStatus-discrete, Clock, call_ret_error,
}
use polaris_cpp.CircuitBreaker.ChainData.{
  ChainData, Shared, InstancesStatus, entry, translate, translate_status, touch, change_status,
}
use polaris_cpp.CircuitBreaker.Agreement.{AgreeAt}
use polaris_cpp.CircuitBreaker.ErrorRate.{
  ErrorRateBucket, ErrorRateStatus, Floats, Settings, timing_at, detected, on_call, buckets_count,
  failed,
}
use polaris_cpp.CircuitBreaker.ErrorRate.Window.{on_call_counted}
use polaris_cpp.CircuitBreaker.ErrorRate.Recovery.{detected_stale}

abbrev percent : Floats ℕ
percent = record {
  bad_rate = λ r. r == 0 || leb 100 r;
  default_rate = 50;
  ceil_div = λ a b. (a + b - 1) / b;
  rate_reached = λ r err total. leb (r * total) (100 * err);
}

abbrev settings : Settings ℕ
settings = record {
  request_volume_threshold = 4;
  error_rate_threshold = 50;
  metric_stat_time_window = 30;
  metric_num_buckets = 3;
  metric_bucket_time = 10;
  sleep_window = 30;
  request_count_after_half_open = 3;
  success_count_after_half_open = 2;
  metric_expired_time = 1000;
}

abbrev first : InstancesStatus
first = record { plugin_index = 1; auto_half_open_enable = true }

abbrev at_time : ℕ → Clock
at_time t = record { system = t; steady = t }

-- Buckets of the times 9, 7 and 8.
abbrev ring : List ErrorRateBucket
ring =
    record { total_count = 3; error_count = 1; bucket_time = 9 }
    ∷ record { total_count = 5; error_count = 5; bucket_time = 7 }
    ∷ record { total_count = 2; error_count = 0; bucket_time = 8 }
    ∷ []

abbrev closed : ErrorRateStatus
closed = record {
  status = close;
  buckets = ring;
  last_update_time = 0;
  total_count = 0;
  error_count = 0;
}

-- A failed call at 105, in the bucket of time 10 that holds the counts of time 7.
on_call_counted_example :
    let before = buckets_count 7 ring in
    let after = buckets_count 7 (on_call settings true 105 call_ret_error closed).buckets in
    (after.total_req ≡ add32 before.total_req 1)
    × (after.err_req ≡ add32 before.err_req (failed call_ret_error))
on_call_counted_example =
    on_call_counted settings 105 call_ret_error closed
      (record { total_count = 5; error_count = 5; bucket_time = 7 }) refl (omega arith)
      (omega arith) (omega arith) refl (omega arith, inl refl)

-- The chain's table, where instance 7 is open and belongs to plugin 1.
abbrev opened_chain : ChainData ℕ
opened_chain = record {
  plugin_data = record { plugin_name = 100; request_after_half_open = 10 } ∷ [];
  last_update_version = 0;
  current_version = 1;
  chain_status_map =
      (7, record { status = opened; owner_plugin_index = 1; change_seq_id = 1 }) ∷ [];
}

abbrev shared : Shared ℕ
shared = record { chain = opened_chain; records = [] }

-- Open, with the counters of a half-open phase of two successes.
abbrev recovered_once : ErrorRateStatus
recovered_once = record {
  status = opened;
  buckets = ring;
  last_update_time = 50;
  total_count = 2;
  error_count = 0;
}

abbrev probed_chain : ChainData ℕ
probed_chain = record opened_chain {
  chain_status_map =
      (7, record { status = half_open; owner_plugin_index = 1; change_seq_id = 2 }) ∷ [];
}

is_agreed :
    (translate first
      (at_time 61)
      7
      half_open
      close
      (record { chain = probed_chain; records = [] })).0
    ≡ true
unfolding translate translate_status entry touch change_status lookup insert ℕ_discrete
    CircuitBreakerStatus-discrete
is_agreed = refl

detected_stale_example :
    ((detected (at_time 60) recovered_once).status ≡ half_open)
    × ((timing_at percent half_open settings first
          (at_time 61)
          7
          (detected (at_time 60) recovered_once)
          (record { chain = probed_chain; records = [] })).0.status
        ≡ close)
detected_stale_example =
    detected_stale percent settings first (at_time 60) (at_time 61) 7 recovered_once
      (record { chain = probed_chain; records = [] }) refl refl is_agreed

start-AgreeAt : AgreeAt 1 opened (entry opened_chain 7)
unfolding entry lookup ℕ_discrete
start-AgreeAt = ground arith
