-- ===== src/CircuitBreaker/ErrorRate/Agree.antt =====
-- ErrorRateCircuitBreaker and the chain agree: every timer step keeps the breaker's status of an
-- instance and the chain's entry for it in step.
use polaris_cpp.Base.{
  ◌≡◌, refl, inl, inr, ◌≢◌, Key, Bool-cases, ◌&&◌, ◌||◌, ◌/◌, ◌%◌, ◌^◌, leb, le_int, lt_int, add64,
  sub64, sub32, mul64,
}
use polaris_cpp.CircuitBreaker.Status.{
  CircuitBreakerStatus, close, half_open, opened, preserved, Clock,
}
use polaris_cpp.CircuitBreaker.ChainData.{Shared, InstancesStatus, entry}
use polaris_cpp.CircuitBreaker.Agreement.{AgreeAt, Moves, stays, follow-Moves}
use polaris_cpp.CircuitBreaker.ErrorRate.{
  ErrorRateStatus, Floats, Settings, timing_at, buckets_count,
}

abbrev status_of : ErrorRateStatus → CircuitBreakerStatus
status_of st = st.status

module _ {F K : Type 0} ⦃key : Key K⦄ where
  -- The timer's step for one instance, whatever the breaker's numbers: if the breaker's status and
  -- the chain's entry agree before it, they agree after it, and the entries of the other instances
  -- stand.
  pub timing_at-Moves :
      (fl : Floats F) (s : Settings F) (i : InstancesStatus) (now : Clock) (id : K)
      (at : CircuitBreakerStatus) (st : ErrorRateStatus) (w : Shared K)
      → i.plugin_index ≢ 0
      → st.status ≡ at
      → AgreeAt i.plugin_index at (entry w.chain id)
      → let r = timing_at fl at s i now id st w in Moves i.plugin_index id r.0.status w r.1
  unfolding timing_at
  timing_at-Moves fl s i now id opened st w pos e a =
      elim (Bool-cases
        (i.auto_half_open_enable && leb (add64 st.last_update_time s.sleep_window) now.steady)) [
          | inl t ↦
              rw t (follow-Moves status_of i now id opened half_open w _ st pos (λ x. cc) a refl e)
          | inr t ↦ rw (t, e) (stays i.plugin_index id opened w a)
        ]
  timing_at-Moves fl s i now id close st w pos e a =
      let c =
        buckets_count (sub64 (now.steady / s.metric_bucket_time) s.metric_num_buckets) st.buckets in
      elim (Bool-cases (
        le_int s.request_volume_threshold c.total_req
        && fl.rate_reached s.error_rate_threshold c.err_req c.total_req)) [
          | inl t ↦
              rw t (follow-Moves status_of i now id close opened w _ st pos (λ x. cc) a refl e)
          | inr t ↦ rw (t, e) (stays i.plugin_index id close w a)
        ]
  timing_at-Moves fl s i now id half_open st w pos e a =
      elim (Bool-cases (
        le_int s.success_count_after_half_open
          (sub32 (st.total_count % 2 ^ 32) (st.error_count % 2 ^ 32)))) [
            | inl t ↦
                rw t (follow-Moves status_of i now id half_open close w _ st pos (λ x. cc) a refl e)
            | inr t ↦
                elim (Bool-cases (
                  lt_int (sub32 s.request_count_after_half_open s.success_count_after_half_open)
                    (st.error_count % 2 ^ 32)
                  || leb (add64 st.last_update_time (mul64 100 s.sleep_window)) now.steady)) [
                    | inl u ↦
                        rw (t, u)
                          (follow-Moves status_of i now id half_open opened w _ st pos (λ x. cc) a
                            refl e)
                    | inr u ↦ rw (t, u, e) (stays i.plugin_index id half_open w a)
                  ]
          ]
  timing_at-Moves fl s i now id preserved st w pos e a =
      rw e (stays i.plugin_index id preserved w a)
