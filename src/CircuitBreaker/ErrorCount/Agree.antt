-- ===== src/CircuitBreaker/ErrorCount/Agree.antt =====
-- ErrorCountCircuitBreaker and the chain agree: every operation keeps the breaker's status of each
-- instance and the chain's entry for it in step.
use polaris_cpp.Base.{
  ◌≡◌, refl, inl, inr, ◌≢◌, Key, arith, Bool-cases, leb, le_int, add32, add64, mul64, ◌&&◌,
}
use polaris_cpp.CircuitBreaker.Status.{
  CircuitBreakerStatus, close, half_open, opened, preserved, Clock, CallRetStatus, call_ret_ok,
  call_ret_timeout, call_ret_error,
}
use polaris_cpp.CircuitBreaker.ChainData.{Shared, InstancesStatus, entry}
use polaris_cpp.CircuitBreaker.Agreement.{AgreeAt, Moves, stays, follow-Moves}
use polaris_cpp.CircuitBreaker.ErrorCount.{
  ErrorCountStatus, Settings, try_open, on_error_at, on_ok, on_call, timing_at,
}

abbrev status_of : ErrorCountStatus → CircuitBreakerStatus
status_of st = st.status

-- A success changes a counter, never the status.
on_ok-status : (st : ErrorCountStatus) → (on_ok st).status ≡ st.status
unfolding on_ok
on_ok-status st = ground arith

module _ {K : Type 0} ⦃key : Key K⦄ where
  module _ (s : Settings) (i : InstancesStatus) (now : Clock) (id : K)
      (pos : i.plugin_index ≢ 0) where
    -- The conclusion for one operation about `id`.
    abbrev pub Keeps : Shared K → ErrorCountStatus × Shared K → Type 0
    Keeps w r = Moves i.plugin_index id r.0.status w r.1

    try_open-Keeps :
        (from : CircuitBreakerStatus) (st : ErrorCountStatus) (w : Shared K)
        → st.status ≡ from
        → AgreeAt i.plugin_index from (entry w.chain id)
        → Keeps w (try_open i now id from st w)
    unfolding try_open
    try_open-Keeps from st w e a =
        follow-Moves status_of i now id from opened w _ st pos (λ x. cc) a refl e

    on_error_at-Keeps :
        (at : CircuitBreakerStatus) (st : ErrorCountStatus) (w : Shared K)
        → st.status ≡ at
        → AgreeAt i.plugin_index at (entry w.chain id)
        → Keeps w (on_error_at at s i now id st w)
    unfolding on_error_at
    on_error_at-Keeps close st w e a =
        let st' : ErrorCountStatus = record st { error_count = add32 st.error_count 1 } in
        elim (Bool-cases (le_int s.continue_error_threshold (add32 st.error_count 1))) [
          | inl t ↦ rw t (try_open-Keeps close st' w e a)
          | inr t ↦ rw (t, e) (stays i.plugin_index id close w a)
        ]
    on_error_at-Keeps half_open st w e a =
        let st' : ErrorCountStatus = record st { error_count = add32 st.error_count 1 } in
        elim (Bool-cases (le_int s.error_count_half_open_to_open (add32 st.error_count 1))) [
          | inl t ↦ rw t (try_open-Keeps half_open st' w e a)
          | inr t ↦ rw (t, e) (stays i.plugin_index id half_open w a)
        ]
    on_error_at-Keeps opened st w e a = rw e (stays i.plugin_index id opened w a)
    on_error_at-Keeps preserved st w e a = rw e (stays i.plugin_index id preserved w a)

    pub on_call-Keeps :
        (ret : CallRetStatus) (st : ErrorCountStatus) (w : Shared K)
        → AgreeAt i.plugin_index st.status (entry w.chain id)
        → Keeps w (on_call s i now id ret st w)
    unfolding on_call
    on_call-Keeps call_ret_ok st w a = rw (on_ok-status st) (stays i.plugin_index id st.status w a)
    on_call-Keeps call_ret_timeout st w a = on_error_at-Keeps st.status st w refl a
    on_call-Keeps call_ret_error st w a = on_error_at-Keeps st.status st w refl a

    pub timing_at-Keeps :
        (at : CircuitBreakerStatus) (st : ErrorCountStatus) (w : Shared K)
        → st.status ≡ at
        → AgreeAt i.plugin_index at (entry w.chain id)
        → Keeps w (timing_at at s i now id st w)
    unfolding timing_at
    timing_at-Keeps opened st w e a =
        elim (Bool-cases
          (i.auto_half_open_enable && leb (add64 st.last_update_time s.sleep_window) now.steady)) [
            | inl t ↦
                rw t
                  (follow-Moves status_of i now id opened half_open w _ st pos (λ x. cc) a refl e)
            | inr t ↦ rw (t, e) (stays i.plugin_index id opened w a)
          ]
    timing_at-Keeps half_open st w e a =
        elim (Bool-cases (le_int s.success_count_half_open_to_close st.success_count)) [
          | inl t ↦
              rw t (follow-Moves status_of i now id half_open close w _ st pos (λ x. cc) a refl e)
          | inr t ↦
              elim (Bool-cases
                (leb (add64 st.last_update_time (mul64 100 s.sleep_window)) now.steady)) [
                  | inl u ↦
                      rw (t, u)
                        (follow-Moves status_of i now id half_open opened w _ st pos (λ x. cc) a
                          refl e)
                  | inr u ↦ rw (t, u, e) (stays i.plugin_index id half_open w a)
                ]
        ]
    timing_at-Keeps close st w e a = rw e (stays i.plugin_index id close w a)
    timing_at-Keeps preserved st w e a = rw e (stays i.plugin_index id preserved w a)
