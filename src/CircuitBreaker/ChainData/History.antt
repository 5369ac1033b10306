-- ===== src/CircuitBreaker/ChainData/History.antt =====
-- Histories of CircuitBreakerChainData::TranslateStatus calls by any plugins, in any order.
use polaris_cpp.Base.{ℕ, ◌≡◌, refl, lookup, inl, inr, ◌≢◌, List, [], ◌∷◌, Key, arith, ◌∙◌}
use polaris_cpp.CircuitBreaker.Status.{CircuitBreakerStatus, close}
use polaris_cpp.CircuitBreaker.ChainData.{ChainData, ChainStatus, init, entry, translate_status}
use polaris_cpp.CircuitBreaker.ChainData.Laws.{translate_status_cases, moved}

pub record Call (K : Type 0) : Type 0 where
  pub plugin_index : ℕ
  pub instance_id : K
  pub from_status : CircuitBreakerStatus
  pub to_status : CircuitBreakerStatus
  pub time : ℕ

-- An instance out of service has an owner, and a closed one has none.
abbrev pub OwnedAt : ChainStatus → Type 0
OwnedAt s =
    (s.status ≡ close → s.owner_plugin_index ≡ 0) × (s.owner_plugin_index ≡ 0 → s.status ≡ close)

moved-OwnedAt :
    (p : ℕ) (to : CircuitBreakerStatus) (s : ChainStatus) → p ≢ 0 → OwnedAt (moved p to s)
moved-OwnedAt p to s h = ground arith

module _ {K : Type 0} ⦃key : Key K⦄ where
  abbrev pub step : ChainData K → Call K → ChainData K
  step d c = (translate_status d c.plugin_index c.instance_id c.from_status c.to_status c.time).1

  unfoldable pub run : ChainData K → List (Call K) → ChainData K
  run d [] = d
  run d (c ∷ cs) = run (step d c) cs

  abbrev pub IsOwned : ChainData K → Type 0
  IsOwned d = (j : K) → OwnedAt (entry d j)

  abbrev pub Every : (Call K → Type 0) → List (Call K) → Type 0
  Every P [] = Unit {0}
  Every P (c ∷ cs) = P c × Every P cs

  step-IsOwned :
      (d : ChainData K) (c : Call K) → c.plugin_index ≢ 0 → IsOwned d → IsOwned (step d c)
  step-IsOwned d c h v j =
      elim (translate_status_cases d c.plugin_index c.instance_id c.from_status c.to_status
        c.time) [
          | inl (a, (s, e, w)) ↦ rw (e j) (
              ground
                (arith, v j, moved-OwnedAt c.plugin_index c.to_status (entry d c.instance_id) h))
          | inr (n, (s, e, w)) ↦ rw (e j) (v j)
        ]

  pub init-IsOwned : IsOwned init
  unfolding init entry lookup
  init-IsOwned j = ground arith

  -- Over every history of calls by plugins numbered from 1, an instance has an owner exactly when it
  -- is not closed.
  pub run-IsOwned :
      (cs : List (Call K)) (d : ChainData K)
      → Every (λ c. c.plugin_index ≢ 0) cs
      → IsOwned d
      → IsOwned (run d cs)
  unfolding run
  run-IsOwned [] d h v = v
  run-IsOwned (c ∷ cs) d h v = run-IsOwned cs (step d c) h.1 (step-IsOwned d c h.0 v)

  step_foreign :
      (d : ChainData K) (c : Call K) (id : K) (p : ℕ)
      → p ≢ 0
      → (entry d id).owner_plugin_index ≡ p
      → c.plugin_index ≢ p
      → entry (step d c) id ≡ entry d id
  step_foreign d c id p pos owned other =
      elim (translate_status_cases d c.plugin_index c.instance_id c.from_status c.to_status
        c.time) [ inl (a, (s, e, w)) ↦ rw (e id) (ground (arith, a)) | inr (n, (s, e, w)) ↦ e id ]

  -- While only other plugins call, whatever they ask for, an instance that plugin `p` owns keeps its
  -- state, its owner and its change counter.
  pub run_foreign :
      (cs : List (Call K)) (d : ChainData K) (id : K) (p : ℕ)
      → p ≢ 0
      → (entry d id).owner_plugin_index ≡ p
      → Every (λ c. c.plugin_index ≢ p) cs
      → entry (run d cs) id ≡ entry d id
  unfolding run
  run_foreign [] d id p pos owned h = refl
  run_foreign (c ∷ cs) d id p pos owned h =
      let same = step_foreign d c id p pos owned h.0 in
      run_foreign cs (step d c) id p pos (rw same owned) h.1 ∙ same
