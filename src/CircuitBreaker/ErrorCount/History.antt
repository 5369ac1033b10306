-- ===== src/CircuitBreaker/ErrorCount/History.antt =====
-- ErrorCountCircuitBreaker among the other plugins of its chain, over any history of calls.
use polaris_cpp.Base.{ℕ, ◌≢◌, ◌≤◌, length, Bool, List, [], ◌∷◌, Key, lookup, arith, if◌then◌else◌}
use polaris_cpp.CircuitBreaker.Status.{
  CircuitBreakerStatus, close, half_open, opened, preserved, Clock, CallRetStatus,
}
use polaris_cpp.CircuitBreaker.ChainData.{
  Shared, InstancesStatus, entry, translate, init, PluginData,
}
use polaris_cpp.CircuitBreaker.ErrorCount.{
  Settings, get_or_create, real_time_circuit_break, timing_circuit_break, detect_to_half_open,
  clean_status,
}
use polaris_cpp.CircuitBreaker.ErrorCount.Invariant.{
  Table, Inv, real_time-Inv, timing-Inv, detect-Inv, foreign-Inv, clean-Inv,
}

-- One event: a call result, the timer, a probe in mode `on_recover` that asks the chain for
-- half-open and then tells the breaker, a successful probe in mode `always` that asks the chain for
-- closed with the breaker's own number and tells the breaker nothing, or a translation by another
-- plugin. A failed probe in mode `always` is one of these: the health checker has a number of its own.
pub data Event (K : Type 0) : Type 0 where
  call : Clock → K → CallRetStatus → Event K
  timer : Clock → (K → Bool) → Event K
  probe : Clock → K → Event K
  healthy_probe : Clock → K → Event K
  other : InstancesStatus → Clock → K → CircuitBreakerStatus → CircuitBreakerStatus → Event K

module _ {K : Type 0} ⦃key : Key K⦄ where
  -- CircuitBreakerChain::TimingCircuitBreak makes the timing call and then the cleaning call;
  -- CircuitBreakerChain::TranslateStatus makes the probes' calls.
  unfoldable pub step :
      Settings → InstancesStatus → Event K → Table K × Shared K → Table K × Shared K
  step s i (call now id ret) x = real_time_circuit_break s i now id ret x
  step s i (timer now exists) x =
      let y = timing_circuit_break s i now x.0 x.1 in clean_status s exists i now y.0 y.1
  step s i (probe now id) x =
      let r = translate i now id opened half_open x.1 in
      (if r.0 then detect_to_half_open now id x.0 else x.0, r.1)
  step s i (healthy_probe now id) x = (x.0, (translate i now id opened close x.1).1)
  step s i (other j now id from to) x = (x.0, (translate j now id from to x.1).1)

  unfoldable pub run :
      Settings → InstancesStatus → List (Event K) → Table K × Shared K → Table K × Shared K
  run s i [] x = x
  run s i (e ∷ es) x = run s i es (step s i e x)

  -- A plugin's number is from 1 on, and a place of the chain's plugin table.
  abbrev pub InTable : List (PluginData K) → InstancesStatus → Type 0
  InTable plugins i = (i.plugin_index ≢ 0) × (i.plugin_index ≤ length plugins)

  -- The other plugins have other numbers of the table and ask for one of the three working states,
  -- and no probe is one of mode `always`.
  abbrev pub Fits : List (PluginData K) → ℕ → List (Event K) → Type 0
  Fits plugins p [] = Unit {0}
  Fits plugins p (other j now id from to ∷ es) =
      InTable plugins j × (j.plugin_index ≢ p) × (to ≢ preserved) × Fits plugins p es
  Fits plugins p (healthy_probe now id ∷ es) = ⊥
  Fits plugins p (_ ∷ es) = Fits plugins p es

  pub run-Inv :
      (plugins : List (PluginData K)) (s : Settings) (i : InstancesStatus) (es : List (Event K))
      (x : Table K × Shared K)
      → i.plugin_index ≢ 0
      → Fits plugins i.plugin_index es
      → Inv i.plugin_index x
      → Inv i.plugin_index (run s i es x)
  unfolding run step
  run-Inv ps s i [] x pos f v = v
  run-Inv ps s i (call now id ret ∷ es) x pos f v =
      run-Inv ps s i es _ pos f (real_time-Inv s i now pos id ret x v)
  run-Inv ps s i (timer now exists ∷ es) x pos f v =
      run-Inv ps s i es _ pos f (clean-Inv s exists i now _ pos (timing-Inv s i now pos x v))
  run-Inv ps s i (probe now id ∷ es) x pos f v =
      run-Inv ps s i es _ pos f (detect-Inv i now id x pos v)
  run-Inv ps s i (healthy_probe now id ∷ es) x pos f v = elim f [ ]
  run-Inv ps s i (other j now id from to ∷ es) x pos f v =
      run-Inv ps s i es _ pos f.3
        (foreign-Inv i.plugin_index j now id from to x pos f.0.0 f.1 f.2 v)

  -- A new chain with the data of its plugins, and a breaker that knows no instance.
  abbrev pub start : List (PluginData K) → Table K × Shared K
  start plugins = ([], record { chain = record init { plugin_data = plugins }; records = [] })

  pub start-Inv : (plugins : List (PluginData K)) (p : ℕ) → p ≢ 0 → Inv p (start plugins)
  unfolding init entry lookup get_or_create
  start-Inv plugins p pos = record { unique = tt; agree = λ j. ground arith }
