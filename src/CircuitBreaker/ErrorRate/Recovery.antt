-- ===== src/CircuitBreaker/ErrorRate/Recovery.antt =====
-- How an instance leaves the half-open state of ErrorRateCircuitBreaker.
use polaris_cpp.Base.{◌≡◌, true, Key, arith, le_int, sub32, ◌%◌, ◌^◌}
use polaris_cpp.CircuitBreaker.Status.{close, half_open, opened, Clock}
use polaris_cpp.CircuitBreaker.ChainData.{Shared, InstancesStatus, translate, follow}
use polaris_cpp.CircuitBreaker.ErrorRate.{ErrorRateStatus, Floats, Settings, timing_at, detected}

module _ {F K : Type 0} ⦃key : Key K⦄ where
  -- An instance whose counters of an earlier half-open phase had reached the success count goes
  -- back from open to half-open by detection, and the next timer closes it, although no call was
  -- made in between: detection resets the buckets and not the two counters.
  pub detected_stale :
      (fl : Floats F) (s : Settings F) (i : InstancesStatus) (now later : Clock) (id : K)
      (st : ErrorRateStatus) (w : Shared K)
      → st.status ≡ opened
      → le_int s.success_count_after_half_open
          (sub32 (st.total_count % 2 ^ 32) (st.error_count % 2 ^ 32))
        ≡ true
      → (translate i later id half_open close w).0 ≡ true
      → ((detected now st).status ≡ half_open)
        × ((timing_at fl half_open s i later id (detected now st) w).0.status ≡ close)
  unfolding detected timing_at follow
  detected_stale fl s i now later id st w e enough agreed = ground (arith, e, enough, agreed)
