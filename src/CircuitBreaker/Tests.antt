-- ===== src/CircuitBreaker/Tests.antt =====
-- The theorems on polaris/plugin/circuit_breaker at concrete inputs, and runs of the model. Instance
-- ids and plugin names are numbers here.
use polaris_cpp.Base.{
  ℕ, ◌+◌, ◌<◌, ◌≡◌, refl, true, none, ◌⊎◌, ◌≢◌, List, [], ◌∷◌, some, lookup, insert, erase, arith,
  ℕ_discrete, nat_key,
}
use polaris_cpp.CircuitBreaker.Status.{
  close, half_open, opened, CircuitBreakerStatus-discrete, Clock, call_ret_ok, call_ret_error,
  call_ret_timeout,
}
use polaris_cpp.CircuitBreaker.ChainData.{
  ChainData, InstancesStatus, init, entry, translate_status, touch, change_status, translate,
  check_and_sync, follow, PluginData, CircuitBreakerData, plugin_at,
}
use polaris_cpp.CircuitBreaker.ChainData.History
use polaris_cpp.CircuitBreaker.ChainData.Sync.{check_and_sync_faithful, requests_of}
use polaris_cpp.CircuitBreaker.Slots.{delete_keys, check_expired, coarse_steady_time_sub}
use polaris_cpp.CircuitBreaker.ErrorCount
use polaris_cpp.CircuitBreaker.ErrorCount.{Settings, Config, ErrorCountStatus, get_or_create}
use polaris_cpp.CircuitBreaker.ErrorCount.Invariant.{Inv}
use polaris_cpp.CircuitBreaker.ErrorCount.History.{
  Event, call, timer, healthy_probe, other, run, step, start, run-Inv, start-Inv,
}
use polaris_cpp.CircuitBreaker.ErrorCount.Trip.{
  report, Closed, Opened, report_trips, report_after_success,
}
use polaris_cpp.CircuitBreaker.ErrorCount.Recovery.{timer_opened}
use polaris_cpp.CircuitBreaker.ErrorCount.Limits.{init_settings_undecidable}

-- Unfolding `model` opens all that a run computes with.
model : Unit {0}
unfolding run step init ErrorCount.real_time_circuit_break ErrorCount.on_call ErrorCount.on_error_at
    ErrorCount.try_open ErrorCount.timing_circuit_break ErrorCount.timing_at ErrorCount.clean_status
    get_or_create translate translate_status touch change_status check_and_sync follow entry lookup
    insert erase ℕ_discrete CircuitBreakerStatus-discrete delete_keys check_expired
    coarse_steady_time_sub
model = tt

abbrev at_time : ℕ → Clock
at_time t = record { system = 1000 + t; steady = t }

abbrev settings : Settings
settings = record {
  continue_error_threshold = 2;
  request_count_after_half_open = 3;
  sleep_window = 30;
  success_count_half_open_to_close = 2;
  error_count_half_open_to_open = 2;
  metric_expired_time = 1000;
}

abbrev first : InstancesStatus
first = record { plugin_index = 1; auto_half_open_enable = true }

abbrev second : InstancesStatus
second = record { plugin_index = 2; auto_half_open_enable = true }

abbrev two_plugins : ChainData ℕ
two_plugins = record {
  plugin_data =
      record { plugin_name = 100; request_after_half_open = 10 }
      ∷ record { plugin_name = 200; request_after_half_open = 5 }
      ∷ [];
  last_update_version = 0;
  current_version = 0;
  chain_status_map = [];
}

abbrev tripped_events : List (Event ℕ)
tripped_events = call (at_time 1) 7 call_ret_error ∷ call (at_time 2) 7 call_ret_timeout ∷ []

-- Two errors at times 1 and 2, a timer run at 40, two successes, and another at 50.
abbrev events : List (Event ℕ)
events =
    call (at_time 1) 7 call_ret_error
    ∷ call (at_time 2) 7 call_ret_timeout
    ∷ other second (at_time 3) 7 opened close
    ∷ timer (at_time 40) (λ _. true)
    ∷ call (at_time 41) 7 call_ret_ok
    ∷ call (at_time 42) 7 call_ret_ok
    ∷ []

abbrev plugins : List (PluginData ℕ)
plugins = two_plugins.plugin_data

scenario : (get_or_create (run settings first events (start plugins)).0 7).status ≡ half_open
unfolding model
scenario = refl

-- A healthy probe of mode `always` where the breaker has the instance open.
lost :
    let x =
      step settings first
        (healthy_probe (at_time 5) 7)
        (run settings first tripped_events (start plugins)) in
    ((get_or_create x.0 7).status ≡ opened) × ((entry x.1.chain 7).status ≡ close)
unfolding model
lost = (refl, refl)

-- Instance 7 is new: closed, with no errors.
fresh-Closed : Closed {K = ℕ} settings first 7 0 (start plugins)
unfolding model
fresh-Closed = record { status = refl; count = refl; chain = refl; owner = refl }

report_trips_example : Opened {K = ℕ} settings first 7 (
    report settings first 7
      ((at_time 1, call_ret_error) ∷ (at_time 2, call_ret_timeout) ∷ [])
      (start plugins))
report_trips_example =
    (report_trips settings first 7 0
        ((at_time 1, call_ret_error) ∷ (at_time 2, call_ret_timeout) ∷ []) (start plugins)
        ((λ e. cc), ((λ e. cc), tt)) fresh-Closed (omega arith) (omega arith)).1
      refl

report_after_success_example : Closed {K = ℕ} settings first 7 1 (
    report settings first 7
      ((at_time 1, call_ret_ok) ∷ (at_time 2, call_ret_error) ∷ [])
      (start plugins))
report_after_success_example =
    report_after_success settings first 7 0 (at_time 1) ((at_time 2, call_ret_error) ∷ [])
      (start plugins) ((λ e. cc), tt) fresh-Closed (omega arith) (omega arith)

abbrev recovering_events : List (Event ℕ)
recovering_events =
    call (at_time 1) 7 call_ret_error
    ∷ call (at_time 2) 7 call_ret_timeout
    ∷ timer (at_time 40) (λ _. true)
    ∷ []

tripped-Inv : Inv 1 (run settings first tripped_events (start plugins))
tripped-Inv =
    run-Inv plugins settings first tripped_events (start plugins) (omega arith) tt
      (start-Inv plugins 1 (omega arith))

recovering-Inv : Inv 1 (run settings first recovering_events (start plugins))
recovering-Inv =
    run-Inv plugins settings first recovering_events (start plugins) (omega arith) tt
      (start-Inv plugins 1 (omega arith))

tripped : (get_or_create (run settings first tripped_events (start plugins)).0 7).status ≡ opened
unfolding model
tripped = refl

recovering :
    (get_or_create (run settings first recovering_events (start plugins)).0 7).status ≡ half_open
unfolding model
recovering = refl

timer_opened_example :
    (get_or_create
      (ErrorCount.timing_circuit_break settings first
        (at_time 40)
        (run settings first tripped_events (start plugins)).0
        (run settings first tripped_events (start plugins)).1).0
      7)
    ≡ record { status = half_open; error_count = 0; success_count = 0; last_update_time = 40 }
unfolding model
timer_opened_example =
    ((timer_opened settings first (at_time 40) (omega arith) 7
        (run settings first tripped_events (start plugins)) tripped-Inv tripped).0
      refl).0

abbrev trip_by_second : History.Call ℕ
trip_by_second = record {
  plugin_index = 2;
  instance_id = 7;
  from_status = close;
  to_status = opened;
  time = 5;
}

abbrev close_by_first : History.Call ℕ
close_by_first = record {
  plugin_index = 1;
  instance_id = 7;
  from_status = opened;
  to_status = close;
  time = 6;
}

run-IsOwned_example : History.IsOwned (History.run init (trip_by_second ∷ close_by_first ∷ []))
run-IsOwned_example =
    History.run-IsOwned (trip_by_second ∷ close_by_first ∷ []) init (omega arith)
      History.init-IsOwned

owned_by_second : (entry (History.step two_plugins trip_by_second) 7).owner_plugin_index ≡ 2
unfolding model
owned_by_second = refl

abbrev synced : CircuitBreakerData ℕ
synced = record {
  version = 2;
  open_instances = (7, tt) ∷ [];
  half_open_instances = (8, some 10) ∷ [];
}

abbrev half_opened_by_first : History.Call ℕ
half_opened_by_first = record {
  plugin_index = 1;
  instance_id = 8;
  from_status = close;
  to_status = half_open;
  time = 6;
}

abbrev two_out : ChainData ℕ
two_out = History.step (History.step two_plugins trip_by_second) half_opened_by_first

check_and_sync_faithful_example :
    let in_half_open = lookup 8 synced.half_open_instances in
    let s = entry two_out 8 in
    ((s.status ≡ opened) × (lookup 8 synced.open_instances ≡ some tt) × (in_half_open ≡ none)
      ⊎ (s.status ≡ half_open)
        × (lookup 8 synced.open_instances ≡ none)
        × (in_half_open ≡ some (requests_of (plugin_at plugins s.owner_plugin_index)))
      ⊎ (s.status ≢ opened)
        × (s.status ≢ half_open)
        × (lookup 8 synced.open_instances ≡ none)
        × (in_half_open ≡ none))
    × (synced.version ≡ 2)
unfolding model
check_and_sync_faithful_example = check_and_sync_faithful two_out synced 8 (refl, (refl, tt)) refl

abbrev configured : Config
configured = record {
  continuous_error_threshold = 10;
  sleep_window = 30000;
  request_count_after_half_open = 5;
  success_count_after_half_open = 0;
  metric_expired_time = 3600000;
}

abbrev configured_well : Config
configured_well = record configured { success_count_after_half_open = 3 }

init_settings_undecidable_example :
    (ErrorCount.init_settings configured).request_count_after_half_open
    < (ErrorCount.init_settings configured).success_count_half_open_to_close
init_settings_undecidable_example =
    (init_settings_undecidable configured (omega arith) refl (omega arith) (omega arith)).0
