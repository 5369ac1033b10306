-- ===== src/CircuitBreaker/ErrorCount/Recovery.antt =====
-- ErrorCountCircuitBreaker::TimingCircuitBreak: how an open instance comes back.
use polaris_cpp.Base.{
  ◌≡◌, refl, sym, ap, ◌∙◌, ◌≢◌, true, false, [], ◌∷◌, Key, lookup, arith, le_int, leb, add64, mul64,
  none, IsUnique, ◌&&◌,
}
use polaris_cpp.CircuitBreaker.Status.{
  CircuitBreakerStatus, close, half_open, opened, Clock, CircuitBreakerStatus-discrete,
}
use polaris_cpp.CircuitBreaker.ChainData.{
  new_chain_status, Shared, InstancesStatus, entry, translate, follow,
}
use polaris_cpp.CircuitBreaker.ChainData.Laws.{moved}
use polaris_cpp.CircuitBreaker.ErrorCount.{
  ErrorCountStatus, Settings, get_or_create, timing_at, timing_circuit_break,
}
use polaris_cpp.CircuitBreaker.Agreement.{AgreeAt, owner_granted}
use polaris_cpp.CircuitBreaker.ErrorCount.Invariant.{
  Table, Inv, Covers, head-Moves, rest-Covers, timing-Agree,
}

module _ {K : Type 0} ⦃key : Key K⦄ (s : Settings) (i : InstancesStatus) (now : Clock) where
  -- What one run of the timer does to a known instance is what the loop body does to it, from a
  -- chain that has the same entry for it.
  abbrev Local : K → Table K × Shared K → Type 0
  Local id x =
      let y = timing_circuit_break s i now x.0 x.1 in
      let st = get_or_create x.0 id in
      (w : Shared K) × (entry w.chain id ≡ entry x.1.chain id)
      × (get_or_create y.0 id ≡ (timing_at st.status s i now id st w).0)
      × (entry y.1.chain id ≡ entry (timing_at st.status s i now id st w).1.chain id)

  timing-Local :
      (pos : i.plugin_index ≢ 0) (id : K) (m : Table K) (w : Shared K)
      → IsUnique m
      → Covers s i now pos m w
      → lookup id m ≢ none
      → Local id (m, w)
  unfolding timing_circuit_break lookup get_or_create
  timing-Local pos id [] w u a known = absurd (known refl)
  timing-Local pos id ((k, slot) ∷ m) w u a known =
      let r = timing_at slot.value.status s i now k slot.value w in
      let c = rest-Covers s i now pos k slot m w u.0 a in
      let (_, _, frame) = timing-Agree s i now pos m r.1 u.1 c in
      elim (key.dec k id) [
        | yes e ↦ (w, refl, ground (arith, e), ground (arith, e, frame k u.0))
        | no n ↦
            let (w', same, here, there) =
              timing-Local pos id m r.1 u.1 c (ground (arith, known, n)) in
            (
              w',
              ground (arith, same, (head-Moves s i now pos k slot m w a).frame id n),
              ground (arith, n, here),
              ground (arith, n, there),
            )
      ]

  -- The state that a granted change leaves: the breaker's new status, and the chain's moved entry.
  follow-granted :
      (id : K) (from to : CircuitBreakerStatus) (w : Shared K) (new old : ErrorCountStatus)
      → from ≢ close
      → from ≢ to
      → AgreeAt i.plugin_index from (entry w.chain id)
      → let r = follow (translate i now id from to w) new old in
        (r.0 ≡ new) × (entry r.1.chain id ≡ moved i.plugin_index to (entry w.chain id))
  unfolding follow
  follow-granted id from to w new old out other a =
      let (done, e) = owner_granted i now id from to w out other a in (rw done, e)

  opened_due :
      (id : K) (st : ErrorCountStatus) (w : Shared K)
      → AgreeAt i.plugin_index opened (entry w.chain id)
      → (i.auto_half_open_enable && leb (add64 st.last_update_time s.sleep_window) now.steady)
        ≡ true
      → let r = timing_at opened s i now id st w in
        (r.0 ≡ record {
          status = half_open;
          error_count = 0;
          success_count = 0;
          last_update_time = now.steady;
        })
        × (entry r.1.chain id ≡ moved i.plugin_index half_open (entry w.chain id))
  unfolding timing_at
  opened_due id st w a due =
      rw due (follow-granted id opened half_open w _ st (λ e. cc) (λ e. cc) a)

  opened_early :
      (id : K) (st : ErrorCountStatus) (w : Shared K)
      → (i.auto_half_open_enable && leb (add64 st.last_update_time s.sleep_window) now.steady)
        ≡ false
      → timing_at opened s i now id st w ≡ (st, w)
  unfolding timing_at
  opened_early id st w early = rw early

  half_open_enough :
      (id : K) (st : ErrorCountStatus) (w : Shared K)
      → AgreeAt i.plugin_index half_open (entry w.chain id)
      → le_int s.success_count_half_open_to_close st.success_count ≡ true
      → let r = timing_at half_open s i now id st w in
        (r.0 ≡ record st { status = close; error_count = 0; last_update_time = now.steady })
        × (entry r.1.chain id ≡ new_chain_status)
  unfolding timing_at CircuitBreakerStatus-discrete
  half_open_enough id st w a enough =
      rw enough (follow-granted id half_open close w _ st (λ e. cc) (λ e. cc) a)

  half_open_late :
      (id : K) (st : ErrorCountStatus) (w : Shared K)
      → AgreeAt i.plugin_index half_open (entry w.chain id)
      → le_int s.success_count_half_open_to_close st.success_count ≡ false
      → leb (add64 st.last_update_time (mul64 100 s.sleep_window)) now.steady ≡ true
      → let r = timing_at half_open s i now id st w in
        (r.0 ≡ record st { status = opened; last_update_time = now.steady })
        × (entry r.1.chain id ≡ moved i.plugin_index opened (entry w.chain id))
  unfolding timing_at
  half_open_late id st w a few late =
      rw (few, late) (follow-granted id half_open opened w _ st (λ e. cc) (λ e. cc) a)

  half_open_early :
      (id : K) (st : ErrorCountStatus) (w : Shared K)
      → le_int s.success_count_half_open_to_close st.success_count ≡ false
      → leb (add64 st.last_update_time (mul64 100 s.sleep_window)) now.steady ≡ false
      → timing_at half_open s i now id st w ≡ (st, w)
  unfolding timing_at
  half_open_early id st w few early = rw (few, early)

  -- From a state where breaker and chain agree on every instance. A health checker in mode `always`
  -- can break this; what happens then is in History.
  module _ (pos : i.plugin_index ≢ 0) (id : K) (x : Table K × Shared K)
      (v : Inv i.plugin_index x) where
    local : (get_or_create x.0 id).status ≢ close → Local id x
    unfolding get_or_create
    local h = timing-Local pos id x.0 x.1 v.unique (λ j _. v.agree j) (λ e. h (ground (arith, e)))

    -- The same by the status found, with the agreement that the body starts from.
    local_at :
        (at : CircuitBreakerStatus)
        → (get_or_create x.0 id).status ≡ at
        → at ≢ close
        → let y = timing_circuit_break s i now x.0 x.1 in
          let st = get_or_create x.0 id in
          (w : Shared K) × AgreeAt i.plugin_index at (entry w.chain id)
          × (entry w.chain id ≡ entry x.1.chain id)
          × (get_or_create y.0 id ≡ (timing_at at s i now id st w).0)
          × (entry y.1.chain id ≡ entry (timing_at at s i now id st w).1.chain id)
    local_at at e out =
        let st = get_or_create x.0 id in
        let (w, same, here, there) = local (λ c. out (sym e ∙ c)) in
        (
          w,
          rw (same, ← e) (v.agree id),
          same,
          here ∙ ap (λ z. (timing_at z s i now id st w).0) e,
          there ∙ ap (λ z. entry (timing_at z s i now id st w).1.chain id) e,
        )

    -- A run of the timer over an instance that the breaker has open, where breaker and chain agree on
    -- every instance (Inv: no instance stands twice in the breaker's table, and each status is the
    -- chain's where the breaker owns the instance, and closed where it does not) and the plugin's
    -- number is not 0. If probes are not left to the health checker and the sleep window since the
    -- last change has passed, the instance is half-open, in the breaker, with both counts at zero,
    -- and in the chain, where the breaker still owns it; otherwise nothing about it changes.
    pub timer_opened :
        (get_or_create x.0 id).status ≡ opened
        → let st = get_or_create x.0 id in
          let y = timing_circuit_break s i now x.0 x.1 in
          let due =
            i.auto_half_open_enable && leb (add64 st.last_update_time s.sleep_window) now.steady in
          (due ≡ true
            → (get_or_create y.0 id ≡ record {
              status = half_open;
              error_count = 0;
              success_count = 0;
              last_update_time = now.steady;
            })
              × (entry y.1.chain id ≡ moved i.plugin_index half_open (entry x.1.chain id)))
          × (due ≡ false → (get_or_create y.0 id ≡ st) × (entry y.1.chain id ≡ entry x.1.chain id))
    timer_opened e =
        let st = get_or_create x.0 id in
        let (w, a, same, here, there) = local_at opened e (λ c. cc) in
        (
          (λ due.
              let (b, c) = opened_due id st w a due in
              (here ∙ b, there ∙ c ∙ ap (moved i.plugin_index half_open) same)),
          (λ early.
              let q = opened_early id st w early in
              (here ∙ ap (λ z. z.0) q, there ∙ ap (λ z. entry z.1.chain id) q ∙ same)),
        )

    -- The same for an instance that the breaker has half-open: with enough successes it is
    -- closed, the error count is zero and the chain forgets it; without them it is open again if a
    -- hundred sleep windows have passed, and otherwise nothing about it changes.
    pub timer_half_open :
        (get_or_create x.0 id).status ≡ half_open
        → let st = get_or_create x.0 id in
          let y = timing_circuit_break s i now x.0 x.1 in
          let enough = le_int s.success_count_half_open_to_close st.success_count in
          let late = leb (add64 st.last_update_time (mul64 100 s.sleep_window)) now.steady in
          (enough ≡ true
            → (get_or_create y.0 id
                ≡ record st { status = close; error_count = 0; last_update_time = now.steady })
              × (entry y.1.chain id ≡ new_chain_status))
          × (enough ≡ false
              → late ≡ true
              → (get_or_create y.0 id
                  ≡ record st { status = opened; last_update_time = now.steady })
                × (entry y.1.chain id ≡ moved i.plugin_index opened (entry x.1.chain id)))
          × (enough ≡ false
              → late ≡ false
              → (get_or_create y.0 id ≡ st) × (entry y.1.chain id ≡ entry x.1.chain id))
    timer_half_open e =
        let st = get_or_create x.0 id in
        let (w, a, same, here, there) = local_at half_open e (λ c. cc) in
        (
          (λ enough. let (b, c) = half_open_enough id st w a enough in (here ∙ b, there ∙ c)),
          (λ few late.
              let (b, c) = half_open_late id st w a few late in
              (here ∙ b, there ∙ c ∙ ap (moved i.plugin_index opened) same)),
          (λ few early.
              let q = half_open_early id st w few early in
              (here ∙ ap (λ z. z.0) q, there ∙ ap (λ z. entry z.1.chain id) q ∙ same)),
        )
