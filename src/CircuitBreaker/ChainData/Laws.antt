-- ===== src/CircuitBreaker/ChainData/Laws.antt =====
-- CircuitBreakerChainData::TranslateStatus: who may change an instance, and what changes.
use polaris_cpp.Base.{
  ℕ, ◌≡◌, refl, ◌⊎◌, inl, inr, ◌≢◌, ite, Bool, true, false, Option, none, some, List, Key, insert,
  lookup-insert, lookup-erase, arith, add64, add32,
}
use polaris_cpp.CircuitBreaker.Status.{
  CircuitBreakerStatus, close, CircuitBreakerStatus-discrete, Clock,
}
use polaris_cpp.CircuitBreaker.ChainData.{
  ChainData, ChainStatus, CircuitChangeRecord, new_chain_status, entry, touch, change_status,
  translate_status, Shared, InstancesStatus, note, translate,
}

-- Rules 1 to 3 of the comment on TranslateStatus: the instance is free or the plugin's own, it is in
-- the source state, and the target is another state.
abbrev pub Allowed : ℕ → CircuitBreakerStatus → CircuitBreakerStatus → ChainStatus → Type 0
Allowed p from to s =
    ((s.owner_plugin_index ≡ 0) ⊎ (s.owner_plugin_index ≡ p)) × (s.status ≡ from) × (s.status ≢ to)

-- The state after an allowed change; a closed instance is as if it had never been seen.
abbrev pub moved : ℕ → CircuitBreakerStatus → ChainStatus → ChainStatus
moved p to s =
    ite (CircuitBreakerStatus-discrete to close) new_chain_status
      (record { status = to; owner_plugin_index = p; change_seq_id = add32 s.change_seq_id 1 })

module _ {K : Type 0} ⦃key : Key K⦄ where
  abbrev pub Refused : ChainData K → Option (CircuitChangeRecord K) × ChainData K → Type 0
  Refused d r =
      (r.0 ≡ none) × ((j : K) → entry r.1 j ≡ entry d j) × (r.1.current_version ≡ d.current_version)

  abbrev pub Applied :
      ℕ
      → K
      → CircuitBreakerStatus
      → ChainData K
      → Option (CircuitChangeRecord K) × ChainData K
      → Type 0
  Applied p id to d r =
      (r.0 ≢ none)
      × ((j : K) → entry r.1 j ≡ ite (key.dec id j) (moved p to (entry d id)) (entry d j))
      × (r.1.current_version ≡ add64 d.current_version 1)

  touch-entry : (d : ChainData K) (id j : K) → entry (touch d id) j ≡ entry d j
  unfolding entry touch
  touch-entry d id j = rw lookup-insert (ground arith)

  touch-version : (d : ChainData K) (id : K) → (touch d id).current_version ≡ d.current_version
  unfolding touch
  touch-version d id = refl

  change_status-Applied :
      (d : ChainData K) (p : ℕ) (id : K) (from to : CircuitBreakerStatus) (now : ℕ)
      → Applied p id to d (change_status (touch d id) p id (entry d id) from to now)
  unfolding change_status entry touch
  change_status-Applied d p id from to now = (
    (λ e. cc),
    (λ j. ground (
      arith,
      lookup-erase id j touched,
      lookup-insert id j s d.chain_status_map,
      lookup-insert id j new touched,
    )),
    refl,
  )
    where
      s : ChainStatus
      s = entry d id

      touched : List (K × ChainStatus)
      touched = insert id s d.chain_status_map

      new : ChainStatus
      new = record { status = to; owner_plugin_index = p; change_seq_id = add32 s.change_seq_id 1 }

  -- A translation is one of the two, by the guard alone.
  translate_status_split :
      (d : ChainData K) (p : ℕ) (id : K) (from to : CircuitBreakerStatus) (now : ℕ)
      → (Allowed p from to (entry d id)
          × (translate_status d p id from to now
              ≡ change_status (touch d id) p id (entry d id) from to now))
        ⊎ ((¬ Allowed p from to (entry d id))
            × (translate_status d p id from to now ≡ (none, touch d id)))
  unfolding translate_status
  translate_status_split d p id from to now = ground arith

  -- A translation is granted exactly when the instance is free or the plugin's own, is in the source
  -- state and not already in the target state. If granted it returns a record, raises the version
  -- by one and changes that instance alone: to the new state under this plugin, or, if closed, to a
  -- state as if never seen. If refused it returns nothing and changes no instance and no version.
  pub translate_status_cases :
      (d : ChainData K) (p : ℕ) (id : K) (from to : CircuitBreakerStatus) (now : ℕ)
      → let r = translate_status d p id from to now in
        (Allowed p from to (entry d id) × Applied p id to d r)
        ⊎ ((¬ Allowed p from to (entry d id)) × Refused d r)
  translate_status_cases d p id from to now = elim (translate_status_split d p id from to now) [
    | inl (a, e) ↦ inl (a, rw e (change_status-Applied d p id from to now))
    | inr (n, e) ↦ inr (n, rw e (refl, touch-entry d id, touch-version d id))
  ]

  -- The same for one breaker's view: the answer says which of the two it was, the record is handed
  -- to the service record, and no other instance is touched.
  abbrev pub Translated :
      InstancesStatus
      → K
      → CircuitBreakerStatus
      → CircuitBreakerStatus
      → Shared K
      → Bool × Shared K
      → Type 0
  Translated i id from to w r =
      (Allowed i.plugin_index from to (entry w.chain id)
        × (r.0 ≡ true)
        × ((j : K)
            → entry r.1.chain j
              ≡ ite (key.dec id j) (moved i.plugin_index to (entry w.chain id)) (entry w.chain j)))
      ⊎ ((¬ Allowed i.plugin_index from to (entry w.chain id))
          × (r.0 ≡ false)
          × ((j : K) → entry r.1.chain j ≡ entry w.chain j))

  note-some :
      (id : K) (r : Option (CircuitChangeRecord K) × ChainData K) (w : Shared K)
      → r.0 ≢ none
      → ((note id r w).0 ≡ true) × ((note id r w).1.chain ≡ r.1)
  note-some id (none, d) w h = absurd (h refl)
  note-some id (some x, d) w h = (refl, refl)

  note-none :
      (id : K) (r : Option (CircuitChangeRecord K) × ChainData K) (w : Shared K)
      → r.0 ≡ none
      → ((note id r w).0 ≡ false) × ((note id r w).1.chain ≡ r.1)
  note-none id (none, d) w h = (refl, refl)
  note-none id (some x, d) w h = cc

  pub translate-Translated :
      (i : InstancesStatus) (now : Clock) (id : K) (from to : CircuitBreakerStatus) (w : Shared K)
      → Translated i id from to w (translate i now id from to w)
  unfolding translate
  translate-Translated i now id from to w =
      elim (translate_status_cases w.chain i.plugin_index id from to now.system) [
        | inl (a, (s, e, v)) ↦
            let (yes_note, same) = note-some id _ w s in inl (a, yes_note, λ j. rw same (e j))
        | inr (n, (s, e, v)) ↦
            let (no_note, same) = note-none id _ w s in inr (n, no_note, λ j. rw same (e j))
      ]
