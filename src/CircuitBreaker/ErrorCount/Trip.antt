-- ===== src/CircuitBreaker/ErrorCount/Trip.antt =====
-- When ErrorCountCircuitBreaker opens an instance: at the configured number of errors in a row.
use polaris_cpp.Base.{
  ℕ, suc, ◌+◌, ◌<◌, ◌^◌, ◌≡◌, refl, ap, ◌∙◌, ◌≢◌, inl, inr, List, [], ◌∷◌, Key, length, arith,
  if_pos,
}
use polaris_cpp.CircuitBreaker.Status.{
  close, opened, Clock, CallRetStatus, call_ret_ok, call_ret_timeout, call_ret_error,
}
use polaris_cpp.CircuitBreaker.ChainData.{Shared, InstancesStatus, entry, follow}
use polaris_cpp.CircuitBreaker.ChainData.Laws.{translate-Translated}
use polaris_cpp.CircuitBreaker.ErrorCount.{
  ErrorCountStatus, Settings, get_or_create, real_time_circuit_break, on_call, on_error_at, on_ok,
  try_open,
}
use polaris_cpp.CircuitBreaker.ErrorCount.Invariant.{Table, get_or_create-insert}

module _ {K : Type 0} ⦃key : Key K⦄ (s : Settings) (i : InstancesStatus) (id : K) where
  -- The results of calls to one instance, in order.
  unfoldable pub report : List (Clock × CallRetStatus) → Table K × Shared K → Table K × Shared K
  report [] x = x
  report ((now, ret) ∷ cs) x = report cs (real_time_circuit_break s i now id ret x)

abbrev pub AllFail : List (Clock × CallRetStatus) → Type 0
AllFail [] = Unit {0}
AllFail ((now, ret) ∷ cs) = (ret ≢ call_ret_ok) × AllFail cs

module _ {K : Type 0} ⦃key : Key K⦄ (s : Settings) (i : InstancesStatus) (id : K) where
  -- The instance is closed with `e` errors counted, and nobody has it out of service.
  pub record Closed (e : ℕ) (x : Table K × Shared K) : Type 0 where
    pub status : (get_or_create x.0 id).status ≡ close
    pub count : (get_or_create x.0 id).error_count ≡ e
    pub chain : (entry x.1.chain id).status ≡ close
    pub owner : (entry x.1.chain id).owner_plugin_index ≡ 0

  pub record Opened (x : Table K × Shared K) : Type 0 where
    pub status : (get_or_create x.0 id).status ≡ opened
    pub chain : (entry x.1.chain id).status ≡ opened
    pub owner : (entry x.1.chain id).owner_plugin_index ≡ i.plugin_index

  on_call-fail :
      (now : Clock) (ret : CallRetStatus) (st : ErrorCountStatus) (w : Shared K)
      → ret ≢ call_ret_ok
      → on_call s i now id ret st w ≡ on_error_at st.status s i now id st w
  unfolding on_call
  on_call-fail now call_ret_ok st w bad = absurd (bad refl)
  on_call-fail now call_ret_timeout st w bad = refl
  on_call-fail now call_ret_error st w bad = refl

  on_error_at-below :
      (e : ℕ) (now : Clock) (st : ErrorCountStatus) (w : Shared K)
      → st.status ≡ close
      → st.error_count ≡ e
      → e + 1 < s.continue_error_threshold
      → s.continue_error_threshold < 2 ^ 31
      → on_error_at st.status s i now id st w ≡ (record st { error_count = e + 1 }, w)
  unfolding on_error_at
  on_error_at-below e now st w c n lt small = ground arith

  on_error_at-reached :
      (e : ℕ) (now : Clock) (st : ErrorCountStatus) (w : Shared K)
      → st.status ≡ close
      → st.error_count ≡ e
      → e + 1 ≡ s.continue_error_threshold
      → s.continue_error_threshold < 2 ^ 31
      → on_error_at st.status s i now id st w
        ≡ try_open i now id close (record st { error_count = e + 1 }) w
  unfolding on_error_at
  on_error_at-reached e now st w c n eq small = ground arith

  -- A report stores what `on_call` makes of the status that it found.
  stored :
      (now : Clock) (ret : CallRetStatus) (m : Table K) (w : Shared K)
      (r : ErrorCountStatus × Shared K)
      → on_call s i now id ret (get_or_create m id) w ≡ r
      → let x = real_time_circuit_break s i now id ret (m, w) in
        (get_or_create x.0 id ≡ r.0) × (x.1 ≡ r.1)
  unfolding real_time_circuit_break
  stored now ret m w r e =
      (rw (get_or_create-insert m id id, if_pos _ refl) (ap (λ y. y.0) e), ap (λ y. y.1) e)

  fail-Closed :
      (e : ℕ) (now : Clock) (ret : CallRetStatus) (x : Table K × Shared K)
      → ret ≢ call_ret_ok
      → Closed e x
      → e + 1 < s.continue_error_threshold
      → s.continue_error_threshold < 2 ^ 31
      → Closed (e + 1) (real_time_circuit_break s i now id ret x)
  fail-Closed e now ret (m, w) bad c lt small =
      let st = get_or_create m id in
      let (here, rest) =
        stored now ret m w _ (
          on_call-fail now ret st w bad ∙ on_error_at-below e now st w c.status c.count lt small) in
      record {
        status = rw here c.status;
        count = rw here refl;
        chain = rw rest c.chain;
        owner = rw rest c.owner;
      }

  try_open-free :
      (now : Clock) (st : ErrorCountStatus) (w : Shared K)
      → (entry w.chain id).status ≡ close
      → (entry w.chain id).owner_plugin_index ≡ 0
      → let r = try_open i now id close st w in
        (r.0.status ≡ opened)
        × ((entry r.1.chain id).status ≡ opened)
        × ((entry r.1.chain id).owner_plugin_index ≡ i.plugin_index)
  unfolding try_open follow
  try_open-free now st w c o = elim (translate-Translated i now id close opened w) [
    | inl (a, done, e) ↦ ground (arith, done, e id)
    | inr (n, undone, e) ↦ absurd (n (inl o, c, (λ x. cc)))
  ]

  fail-Opened :
      (e : ℕ) (now : Clock) (ret : CallRetStatus) (x : Table K × Shared K)
      → ret ≢ call_ret_ok
      → Closed e x
      → e + 1 ≡ s.continue_error_threshold
      → s.continue_error_threshold < 2 ^ 31
      → Opened (real_time_circuit_break s i now id ret x)
  fail-Opened e now ret (m, w) bad c eq small =
      let st = get_or_create m id in
      let (here, rest) = stored now ret m w _ (
        on_call-fail now ret st w bad ∙ on_error_at-reached e now st w c.status c.count eq small) in
      let (a, b, o) = try_open-free now (record st { error_count = e + 1 }) w c.chain c.owner in
      record { status = rw here a; chain = rw rest b; owner = rw rest o }

  -- From a closed instance with `e` errors counted and no owner, and a threshold that an `int` holds:
  -- failed calls in a row leave it closed, with every one counted, as long as the total stays below
  -- the threshold; and when the total reaches the threshold the instance is open, in the breaker and
  -- in the chain, and the breaker owns it.
  pub report_trips :
      (e : ℕ) (cs : List (Clock × CallRetStatus)) (x : Table K × Shared K)
      → AllFail cs
      → Closed e x
      → e < s.continue_error_threshold
      → s.continue_error_threshold < 2 ^ 31
      → (e + length cs < s.continue_error_threshold → Closed (e + length cs) (report s i id cs x))
        × (e + length cs ≡ s.continue_error_threshold → Opened (report s i id cs x))
  unfolding report
  report_trips e [] x bad c lt small =
      let same : e + 0 ≡ e = omega arith in (λ h. rw same c, λ h. absurd (omega arith))
  report_trips e ((now, ret) ∷ []) x bad c lt small = (
    (λ h. fail-Closed e now ret x bad.0 c h small),
    (λ h. fail-Opened e now ret x bad.0 c h small),
  )
  report_trips e ((now, ret) ∷ d ∷ cs) x bad c lt small =
      let rest = λ (below : e + 1 < s.continue_error_threshold).
        report_trips (e + 1) (d ∷ cs) (real_time_circuit_break s i now id ret x) bad.1
          (fail-Closed e now ret x bad.0 c below small) below small in
      let shift : e + suc (suc (length cs)) ≡ e + 1 + suc (length cs) = omega arith in
      (
        (λ h. rw shift ((rest (omega arith)).0 (omega arith))),
        (λ h. (rest (omega arith)).1 (omega arith)),
      )

  -- One success among the errors starts the count anew, whatever it was.
  success-Closed :
      (e : ℕ) (now : Clock) (x : Table K × Shared K)
      → Closed e x
      → Closed 0 (real_time_circuit_break s i now id call_ret_ok x)
  unfolding on_call on_ok
  success-Closed e now (m, w) c =
      let (here, rest) = stored now call_ret_ok m w _ refl in
      record {
        status = rw here (ground arith);
        count = rw here (ground arith);
        chain = rw rest c.chain;
        owner = rw rest c.owner;
      }

  -- Only errors in a row count: a closed instance that has just had a success, however many errors
  -- came before it, stays closed through any further run of failed calls shorter than the threshold.
  pub report_after_success :
      (e : ℕ) (now : Clock) (cs : List (Clock × CallRetStatus)) (x : Table K × Shared K)
      → AllFail cs
      → Closed e x
      → length cs < s.continue_error_threshold
      → s.continue_error_threshold < 2 ^ 31
      → Closed (length cs) (report s i id ((now, call_ret_ok) ∷ cs) x)
  unfolding report
  report_after_success e now cs x bad c lt small =
      let zero_count : 0 + length cs ≡ length cs = omega arith in
      rw zero_count at
        ((report_trips 0 cs _ bad (success-Closed e now x c) (omega arith) small).0 (omega arith))
