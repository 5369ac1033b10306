-- ===== src/CircuitBreaker/ErrorCount.antt =====
-- polaris/plugin/circuit_breaker/error_count.{h,cpp}: ErrorCountCircuitBreaker opens an instance
-- after a run of errors. `int` counters are 32-bit patterns, times are 64-bit ones.
pub mod Agree
pub mod Invariant
pub mod History
pub mod Trip
pub mod Limits
pub mod Recovery
use polaris_cpp.Base.{
  ℕ, ◌+◌, ◌-◌, ◌^◌, Bool, true, false, not, ◌&&◌, Option, none, some, List, [], ◌∷◌, Key, lookup,
  insert, ◌==◌, ltb, leb, le_int, lt_int, add32, sub32, add64, mul64, if◌then◌else◌,
}
use polaris_cpp.CircuitBreaker.Status.{
  CircuitBreakerStatus, close, half_open, opened, preserved, Clock, CallRetStatus, call_ret_ok,
}
use polaris_cpp.CircuitBreaker.Slots.{Slot, check_expired, delete_keys, coarse_steady_time_sub}
use polaris_cpp.CircuitBreaker.ChainData.{Shared, InstancesStatus, translate, follow}

pub record ErrorCountStatus : Type 0 where
  pub status : CircuitBreakerStatus
  pub error_count : ℕ
  pub success_count : ℕ
  pub last_update_time : ℕ

abbrev pub new_status : ErrorCountStatus
new_status = record { status = close; error_count = 0; success_count = 0; last_update_time = 0 }

pub record Settings : Type 0 where
  pub continue_error_threshold : ℕ
  pub request_count_after_half_open : ℕ
  pub sleep_window : ℕ
  pub success_count_half_open_to_close : ℕ
  pub error_count_half_open_to_open : ℕ
  pub metric_expired_time : ℕ

-- What the configuration answers for the five keys, defaults of absent keys included.
pub record Config : Type 0 where
  pub continuous_error_threshold : ℕ
  pub sleep_window : ℕ
  pub request_count_after_half_open : ℕ
  pub success_count_after_half_open : ℕ
  pub metric_expired_time : ℕ

-- `x <= 0` of an `int`.
abbrev pub not_positive : ℕ → Bool
not_positive x = le_int x 0

-- The conversion of an `int` to `uint64_t`.
abbrev pub sign_extend : ℕ → ℕ
sign_extend x = if ltb x (2 ^ 31) then x else x + (2 ^ 64 - 2 ^ 32)

-- Init, with the defaults of polaris/model/constants.h.
unfoldable pub init_settings : Config → Settings
init_settings c =
    let request : ℕ =
      if not_positive c.request_count_after_half_open
      then 10
      else c.request_count_after_half_open in
    let success : ℕ =
      if not_positive c.success_count_after_half_open
      then 8
      else if lt_int request c.success_count_after_half_open
      then request
      else c.success_count_after_half_open in
    let expired = sign_extend c.metric_expired_time in
    record {
      continue_error_threshold =
          if not_positive c.continuous_error_threshold then 10 else c.continuous_error_threshold;
      request_count_after_half_open = request;
      sleep_window = if c.sleep_window == 0 then 30000 else c.sleep_window;
      success_count_half_open_to_close = success;
      error_count_half_open_to_open = add32 (sub32 request success) 1;
      metric_expired_time = if expired == 0 then 3600000 else expired;
    }

-- RealTimeCircuitBreak after the lookup, for a call that went well.
unfoldable pub on_ok : ErrorCountStatus → ErrorCountStatus
on_ok st = elim st.status [
  | half_open ↦ record st { success_count = add32 st.success_count 1 }
  | _ ↦ record st { error_count = 0 }
]

-- The body of DetectToHalfOpen for an instance that is known.
unfoldable pub detected : Clock → ErrorCountStatus → ErrorCountStatus
detected now st = elim st.status [
  | opened ↦ record {
    status = half_open;
    error_count = 0;
    success_count = 0;
    last_update_time = now.steady;
  }
  | _ ↦ st
]

module _ {K : Type 0} ⦃key : Key K⦄ where
  -- `status` becomes open if the chain agrees; the new count is kept either way.
  unfoldable pub try_open :
      InstancesStatus
      → Clock
      → K
      → CircuitBreakerStatus
      → ErrorCountStatus
      → Shared K
      → ErrorCountStatus × Shared K
  try_open i now id from st w =
      follow (translate i now id from opened w)
        (record st { status = opened; last_update_time = now.steady }) st

  -- RealTimeCircuitBreak after the lookup, for a call that failed, by the status found.
  unfoldable pub on_error_at :
      CircuitBreakerStatus
      → Settings
      → InstancesStatus
      → Clock
      → K
      → ErrorCountStatus
      → Shared K
      → ErrorCountStatus × Shared K
  on_error_at close s i now id st w =
      let st' : ErrorCountStatus = record st { error_count = add32 st.error_count 1 } in
      if le_int s.continue_error_threshold st'.error_count
      then try_open i now id close st' w
      else (st', w)
  on_error_at half_open s i now id st w =
      let st' : ErrorCountStatus = record st { error_count = add32 st.error_count 1 } in
      if le_int s.error_count_half_open_to_open st'.error_count
      then try_open i now id half_open st' w
      else (st', w)
  on_error_at _ s i now id st w = (st, w)

  unfoldable pub on_call :
      Settings
      → InstancesStatus
      → Clock
      → K
      → CallRetStatus
      → ErrorCountStatus
      → Shared K
      → ErrorCountStatus × Shared K
  unfolding on_ok
  on_call s i now id call_ret_ok st w = (on_ok st, w)
  on_call s i now id ret st w = on_error_at st.status s i now id st w

  -- GetOrCreateErrorCountStatus.
  unfoldable pub get_or_create : List (K × Slot ErrorCountStatus) → K → ErrorCountStatus
  get_or_create m id = elim (lookup id m) [ none ↦ new_status | some s ↦ s.value ]

  -- RealTimeCircuitBreak.
  unfoldable pub real_time_circuit_break :
      Settings
      → InstancesStatus
      → Clock
      → K
      → CallRetStatus
      → List (K × Slot ErrorCountStatus) × Shared K
      → List (K × Slot ErrorCountStatus) × Shared K
  unfolding get_or_create
  real_time_circuit_break s i now id ret (m, w) =
      let r = on_call s i now id ret (get_or_create m id) w in
      (insert id (record { used_time = now.steady; value = r.0 }) m, r.1)

  -- The body of TimingCircuitBreak's loop, by the status found. `+` and `*` wrap at 64 bits.
  unfoldable pub timing_at :
      CircuitBreakerStatus
      → Settings
      → InstancesStatus
      → Clock
      → K
      → ErrorCountStatus
      → Shared K
      → ErrorCountStatus × Shared K
  timing_at opened s i now id st w =
      if i.auto_half_open_enable && leb (add64 st.last_update_time s.sleep_window) now.steady
      then follow (translate i now id opened half_open w)
          (record {
            status = half_open;
            success_count = 0;
            error_count = 0;
            last_update_time = now.steady;
          })
          st
      else (st, w)
  timing_at half_open s i now id st w =
      if le_int s.success_count_half_open_to_close st.success_count
      then follow (translate i now id half_open close w)
          (record st { status = close; error_count = 0; last_update_time = now.steady }) st
      else if leb (add64 st.last_update_time (mul64 100 s.sleep_window)) now.steady
      then follow (translate i now id half_open opened w)
          (record st { status = opened; last_update_time = now.steady }) st
      else (st, w)
  timing_at _ s i now id st w = (st, w)

  -- TimingCircuitBreak: the loop over all data.
  unfoldable pub timing_circuit_break :
      Settings
      → InstancesStatus
      → Clock
      → List (K × Slot ErrorCountStatus)
      → Shared K
      → List (K × Slot ErrorCountStatus) × Shared K
  timing_circuit_break s i now [] w = ([], w)
  timing_circuit_break s i now ((id, slot) ∷ m) w =
      let r = timing_at slot.value.status s i now id slot.value w in
      let rest = timing_circuit_break s i now m r.1 in
      ((id, record slot { value = r.0 }) ∷ rest.0, rest.1)

  -- DetectToHalfOpen.
  unfoldable pub detect_to_half_open :
      Clock → K → List (K × Slot ErrorCountStatus) → List (K × Slot ErrorCountStatus)
  unfolding detected
  detect_to_half_open now id m = elim (lookup id m) [
    | none ↦ m
    | some slot ↦ insert id (record { used_time = now.steady; value = detected now slot.value }) m
  ]

  -- The loop of CleanStatus: which expired instances are gone, and the table without them.
  unfoldable pub clean_expired :
      (K → Bool) → InstancesStatus → Clock → List K → Shared K → List K × Shared K
  clean_expired exists i now [] w = ([], w)
  clean_expired exists i now (id ∷ ids) w =
      let w' = translate i now id half_open close (translate i now id opened close w).1 in
      let kept = exists id in
      let rest = clean_expired exists i now ids (if kept then w else w'.1) in
      (if kept then rest.0 else id ∷ rest.0, rest.1)

  -- CleanStatus. CheckGc frees what no reader can reach, and is no part of the state here.
  unfoldable pub clean_status :
      Settings
      → (K → Bool)
      → InstancesStatus
      → Clock
      → List (K × Slot ErrorCountStatus)
      → Shared K
      → List (K × Slot ErrorCountStatus) × Shared K
  unfolding clean_expired
  clean_status s exists i now m w =
      let expired = check_expired (coarse_steady_time_sub now.steady s.metric_expired_time) m in
      let r = clean_expired exists i now expired w in (delete_keys r.0 m, r.1)
