-- ===== src/CircuitBreaker/ErrorRate.antt =====
-- polaris/plugin/circuit_breaker/error_rate.{h,cpp}: ErrorRateCircuitBreaker opens an instance on
-- the share of errors in a sliding window of buckets. `int` values are 32-bit patterns, times and
-- the half-open counters 64-bit ones. A `float` is only compared and divided: its type and those
-- operations are a parameter.
pub mod Agree
pub mod Window
pub mod Recovery
use polaris_cpp.Base.{
  ℕ, ◌+◌, ◌-◌, ◌/◌, ◌%◌, ◌^◌, Bool, true, false, not, ◌&&◌, ◌||◌, Option, none, some, List, [], ◌∷◌,
  Key, lookup, insert, ◌==◌, ltb, leb, le_int, lt_int, add32, sub32, add64, sub64, mul64,
  if◌then◌else◌, get_elem?, set, replicate,
}
use polaris_cpp.CircuitBreaker.Status.{
  CircuitBreakerStatus, close, half_open, opened, preserved, Clock, CallRetStatus, call_ret_ok,
}
use polaris_cpp.CircuitBreaker.Slots.{Slot, check_expired, delete_keys, coarse_steady_time_sub}
use polaris_cpp.CircuitBreaker.ChainData.{Shared, InstancesStatus, translate, follow}

pub record ErrorRateBucket : Type 0 where
  pub total_count : ℕ
  pub error_count : ℕ
  pub bucket_time : ℕ

pub record ErrorRateStatus : Type 0 where
  pub status : CircuitBreakerStatus
  pub buckets : List ErrorRateBucket
  pub last_update_time : ℕ
  pub total_count : ℕ
  pub error_count : ℕ

-- What the code does with `float`: the test of a configured rate, its default, the bucket length
-- `ceilf(window / buckets)`, and `err_req / total_req >= rate`.
pub record Floats (F : Type 0) : Type 0 where
  pub bad_rate : F → Bool
  pub default_rate : F
  pub ceil_div : ℕ → ℕ → ℕ
  pub rate_reached : F → ℕ → ℕ → Bool

pub record Settings (F : Type 0) : Type 0 where
  pub request_volume_threshold : ℕ
  pub error_rate_threshold : F
  pub metric_stat_time_window : ℕ
  pub metric_num_buckets : ℕ
  pub metric_bucket_time : ℕ
  pub sleep_window : ℕ
  pub request_count_after_half_open : ℕ
  pub success_count_after_half_open : ℕ
  pub metric_expired_time : ℕ

-- `x <= 0` of an `int`, and the value kept.
abbrev pub positive_or : ℕ → ℕ → ℕ
positive_or default_ x = if le_int x 0 then default_ else x

-- `x <= 0` of a `uint64_t`.
abbrev pub nonzero_or : ℕ → ℕ → ℕ
nonzero_or default_ x = if x == 0 then default_ else x

-- Init on what the configuration answers, with the defaults of polaris/model/constants.h.
unfoldable pub init_settings : {F : Type 0} → Floats F → Settings F → Settings F
init_settings fl c =
    let window = nonzero_or 60000 c.metric_stat_time_window in
    let num = positive_or 12 c.metric_num_buckets in
    let request = positive_or 10 c.request_count_after_half_open in
    record {
      request_volume_threshold = positive_or 10 c.request_volume_threshold;
      error_rate_threshold =
          if fl.bad_rate c.error_rate_threshold then fl.default_rate else c.error_rate_threshold;
      metric_stat_time_window = window;
      metric_num_buckets = num;
      metric_bucket_time = fl.ceil_div window num;
      sleep_window = nonzero_or 30000 c.sleep_window;
      request_count_after_half_open = request;
      success_count_after_half_open =
          if le_int c.success_count_after_half_open 0
          then 8
          else if lt_int request c.success_count_after_half_open
          then request
          else c.success_count_after_half_open;
      metric_expired_time = nonzero_or 3600000 c.metric_expired_time;
    }

-- ClearBuckets and BucketsCount. The `int` sums wrap at 32 bits.
unfoldable pub clear_buckets : List ErrorRateBucket → List ErrorRateBucket
clear_buckets [] = []
clear_buckets (b ∷ bs) = record b { bucket_time = 0 } ∷ clear_buckets bs

pub record Counts : Type 0 where
  pub total_req : ℕ
  pub err_req : ℕ

unfoldable pub buckets_count : ℕ → List ErrorRateBucket → Counts
buckets_count last_end [] = record { total_req = 0; err_req = 0 }
buckets_count last_end (b ∷ bs) =
    let rest = buckets_count last_end bs in
    if ltb last_end b.bucket_time
    then record {
      total_req = add32 b.total_count rest.total_req;
      err_req = add32 b.error_count rest.err_req;
    }
    else rest

unfoldable pub failed : CallRetStatus → ℕ
failed call_ret_ok = 0
failed ret = 1

-- RealTimeCircuitBreak on one bucket; `swapped` is the outcome of compare_exchange_weak.
unfoldable pub count_in_bucket : Bool → ℕ → CallRetStatus → ErrorRateBucket → ErrorRateBucket
unfolding failed
count_in_bucket swapped bucket_time ret b =
    let b' : ErrorRateBucket =
      if not (bucket_time == b.bucket_time) && swapped
      then record { total_count = 0; error_count = 0; bucket_time = bucket_time }
      else b in
    record b' {
      total_count = add32 b'.total_count 1;
      error_count = add32 b'.error_count (failed ret);
    }

-- RealTimeCircuitBreak after the lookup. The index is below the number of buckets.
unfoldable pub on_call :
    {F : Type 0} → Settings F → Bool → ℕ → CallRetStatus → ErrorRateStatus → ErrorRateStatus
unfolding count_in_bucket
on_call s swapped now ret st = elim st.status [
  | half_open ↦ record st {
    total_count = add64 st.total_count 1;
    error_count = add64 st.error_count (failed ret);
  }
  | _ ↦
      let bucket_time : ℕ = now / s.metric_bucket_time in
      let i : ℕ = bucket_time % s.metric_num_buckets in
      (elim (get_elem? st.buckets i) [
        | none ↦ st
        | some b ↦ record st {
          buckets = set st.buckets i (count_in_bucket swapped bucket_time ret b);
        }
      ])
]

abbrev pub new_status : {F : Type 0} → Settings F → ErrorRateStatus
new_status s = record {
  status = close;
  buckets =
      replicate s.metric_num_buckets (record { total_count = 0; error_count = 0; bucket_time = 0 });
  last_update_time = 0;
  total_count = 0;
  error_count = 0;
}

-- The body of DetectToHalfOpen for an instance that is known: the two counters stay.
unfoldable pub detected : Clock → ErrorRateStatus → ErrorRateStatus
unfolding clear_buckets
detected now st = elim st.status [
  | opened ↦ record st {
    status = half_open;
    last_update_time = now.steady;
    buckets = clear_buckets st.buckets;
  }
  | _ ↦ st
]

module _ {K : Type 0} ⦃key : Key K⦄ where
  -- The loop of CleanStatus.
  unfoldable pub clean_expired :
      (K → Bool) → InstancesStatus → Clock → List K → Shared K → List K × Shared K
  clean_expired exists i now [] w = ([], w)
  clean_expired exists i now (id ∷ ids) w =
      let w' = translate i now id half_open close (translate i now id opened close w).1 in
      let kept = exists id in
      let rest = clean_expired exists i now ids (if kept then w else w'.1) in
      (if kept then rest.0 else id ∷ rest.0, rest.1)

module _ {F K : Type 0} ⦃key : Key K⦄ where
  -- GetOrCreateErrorRateStatus.
  unfoldable pub get_or_create : Settings F → List (K × Slot ErrorRateStatus) → K → ErrorRateStatus
  get_or_create s m id = elim (lookup id m) [ none ↦ new_status s | some slot ↦ slot.value ]

  -- RealTimeCircuitBreak.
  unfoldable pub real_time_circuit_break :
      Settings F
      → Bool
      → Clock
      → K
      → CallRetStatus
      → List (K × Slot ErrorRateStatus)
      → List (K × Slot ErrorRateStatus)
  unfolding on_call get_or_create
  real_time_circuit_break s swapped now id ret m =
      let st = get_or_create s m id in
      insert id (record { used_time = now.steady; value = on_call s swapped now.steady ret st }) m

  -- The body of TimingCircuitBreak's loop, by the status found.
  unfoldable pub timing_at :
      Floats F
      → CircuitBreakerStatus
      → Settings F
      → InstancesStatus
      → Clock
      → K
      → ErrorRateStatus
      → Shared K
      → ErrorRateStatus × Shared K
  unfolding clear_buckets buckets_count
  timing_at fl opened s i now id st w =
      if i.auto_half_open_enable && leb (add64 st.last_update_time s.sleep_window) now.steady
      then follow (translate i now id opened half_open w)
          (record {
            status = half_open;
            buckets = clear_buckets st.buckets;
            last_update_time = now.steady;
            total_count = 0;
            error_count = 0;
          })
          st
      else (st, w)
  timing_at fl close s i now id st w =
      let last_end = sub64 (now.steady / s.metric_bucket_time) s.metric_num_buckets in
      let c = buckets_count last_end st.buckets in
      if le_int s.request_volume_threshold c.total_req
        && fl.rate_reached s.error_rate_threshold c.err_req c.total_req
      then follow (translate i now id close opened w)
          (record st { status = opened; last_update_time = now.steady }) st
      else (st, w)
  timing_at fl half_open s i now id st w =
      let total_req : ℕ = st.total_count % 2 ^ 32 in
      let err_req : ℕ = st.error_count % 2 ^ 32 in
      if le_int s.success_count_after_half_open (sub32 total_req err_req)
      then follow (translate i now id half_open close w)
          (record st {
            status = close;
            last_update_time = now.steady;
            buckets = clear_buckets st.buckets;
          })
          st
      else if lt_int (sub32 s.request_count_after_half_open s.success_count_after_half_open) err_req
          || leb (add64 st.last_update_time (mul64 100 s.sleep_window)) now.steady
      then follow (translate i now id half_open opened w)
          (record st {
            status = opened;
            last_update_time = now.steady;
            buckets = clear_buckets st.buckets;
          })
          st
      else (st, w)
  timing_at fl preserved s i now id st w = (st, w)

  -- TimingCircuitBreak: the loop over all data.
  unfoldable pub timing_circuit_break :
      Floats F
      → Settings F
      → InstancesStatus
      → Clock
      → List (K × Slot ErrorRateStatus)
      → Shared K
      → List (K × Slot ErrorRateStatus) × Shared K
  timing_circuit_break fl s i now [] w = ([], w)
  timing_circuit_break fl s i now ((id, slot) ∷ m) w =
      let r = timing_at fl slot.value.status s i now id slot.value w in
      let rest = timing_circuit_break fl s i now m r.1 in
      ((id, record slot { value = r.0 }) ∷ rest.0, rest.1)

  -- CleanStatus. CheckGc is no part of the state here.
  unfoldable pub clean_status :
      Settings F
      → (K → Bool)
      → InstancesStatus
      → Clock
      → List (K × Slot ErrorRateStatus)
      → Shared K
      → List (K × Slot ErrorRateStatus) × Shared K
  unfolding clean_expired
  clean_status s exists i now m w =
      let expired = check_expired (coarse_steady_time_sub now.steady s.metric_expired_time) m in
      let r = clean_expired exists i now expired w in (delete_keys r.0 m, r.1)

-- DetectToHalfOpen.
unfoldable pub detect_to_half_open :
    {K : Type 0}
    → ⦃key : Key K⦄ → Clock
    → K
    → List (K × Slot ErrorRateStatus)
    → List (K × Slot ErrorRateStatus)
unfolding detected
detect_to_half_open now id m = elim (lookup id m) [
  | none ↦ m
  | some slot ↦ insert id (record { used_time = now.steady; value = detected now slot.value }) m
]
