-- ===== src/CircuitBreaker/ChainData/Sync.antt =====
-- CircuitBreakerChainData::CheckAndSyncToLocalRegistry: what the local registry is told.
use polaris_cpp.Base.{
  ℕ, ◌≡◌, refl, ◌∙◌, ◌⊎◌, inl, inr, ◌≢◌, Option, Option-cases, none, some, Key, lookup, insert,
  add32, IsUnique, insert-IsUnique, erase-IsUnique, lookup-collect, arith, List,
}
use polaris_cpp.CircuitBreaker.Status.{CircuitBreakerStatus, close, half_open, opened, preserved}
use polaris_cpp.CircuitBreaker.ChainData.{
  ChainData, CircuitBreakerData, entry, touch, change_status, translate_status, check_and_sync,
  open_part, half_open_part, PluginData, ChainStatus, plugin_at,
}

-- The request count of a plugin, if there is one.
abbrev pub requests_of : {K : Type 0} → Option (PluginData K) → Option ℕ
requests_of none = none
requests_of (some p) = some p.request_after_half_open

module _ {K : Type 0} ⦃key : Key K⦄ where
  -- No instance stands twice in the table, as in the std::map of the code.
  pub translate_status-IsUnique :
      (d : ChainData K) (p : ℕ) (id : K) (from to : CircuitBreakerStatus) (now : ℕ)
      → IsUnique d.chain_status_map
      → IsUnique (translate_status d p id from to now).1.chain_status_map
  unfolding translate_status change_status touch
  translate_status-IsUnique d p id from to now u =
      let m = insert id (entry d id) d.chain_status_map in
      let um = insert-IsUnique id (entry d id) d.chain_status_map u in
      ground (
        arith,
        um,
        erase-IsUnique id m um,
        insert-IsUnique id
            (record {
              status = to;
              owner_plugin_index = p;
              change_seq_id = add32 (entry d id).change_seq_id 1;
            })
            m um,
      )

  -- Every change is synced at the next check, and only once: a check hands data over exactly when
  -- the version has moved since the last, and leaves nothing for a second check.
  pub check_and_sync_once :
      (d : ChainData K)
      → (((check_and_sync d).0 ≡ none) × (d.last_update_version ≡ d.current_version)
          ⊎ ((check_and_sync d).0 ≢ none) × (d.last_update_version ≢ d.current_version))
        × ((check_and_sync (check_and_sync d).1).0 ≡ none)
        × ((j : K) → entry (check_and_sync d).1 j ≡ entry d j)
  unfolding check_and_sync entry
  check_and_sync_once d = (ground arith, ground arith, λ j. ground arith)

  check_and_sync_parts :
      (d : ChainData K) (b : CircuitBreakerData K) (id : K)
      → IsUnique d.chain_status_map
      → (check_and_sync d).0 ≡ some b
      → (lookup id b.open_instances ≡ open_part (entry d id))
        × (lookup id b.half_open_instances ≡ half_open_part d.plugin_data (entry d id))
        × (b.version ≡ d.current_version)
  unfolding check_and_sync entry
  check_and_sync_parts d b id u e = ground (
    arith,
    lookup-collect open_part id d.chain_status_map u,
    lookup-collect (half_open_part d.plugin_data) id d.chain_status_map u,
  )

  requests_half_open :
      (ps : List (PluginData K)) (o n : ℕ)
      → half_open_part ps (record { status = half_open; owner_plugin_index = o; change_seq_id = n })
        ≡ some (requests_of (plugin_at ps o))
  requests_half_open ps o n = elim (Option-cases (plugin_at ps o)) [
    | inl e ↦ rw e refl
    | inr (p, e) ↦ rw e refl
  ]

  -- What an entry's two parts are, by its status.
  abbrev IsListed : List (PluginData K) → ChainStatus → Type 0
  IsListed ps s =
      (s.status ≡ opened) × (open_part s ≡ some tt) × (half_open_part ps s ≡ none)
      ⊎ (s.status ≡ half_open)
        × (open_part s ≡ none)
        × (half_open_part ps s ≡ some (requests_of (plugin_at ps s.owner_plugin_index)))
      ⊎ (s.status ≢ opened)
        × (s.status ≢ half_open)
        × (open_part s ≡ none)
        × (half_open_part ps s ≡ none)

  status-IsListed :
      (ps : List (PluginData K)) (at : CircuitBreakerStatus) (o n : ℕ)
      → IsListed ps (record { status = at; owner_plugin_index = o; change_seq_id = n })
  status-IsListed ps close o n = inr (inr ((λ e. cc), (λ e. cc), refl, refl))
  status-IsListed ps half_open o n = inr (inl (refl, refl, requests_half_open ps o n))
  status-IsListed ps opened o n = inl (refl, refl, refl)
  status-IsListed ps preserved o n = inr (inr ((λ e. cc), (λ e. cc), refl, refl))

  entry-IsListed : (ps : List (PluginData K)) (s : ChainStatus) → IsListed ps s
  entry-IsListed ps s = status-IsListed ps s.status s.owner_plugin_index s.change_seq_id

  -- Where no instance stands twice in the table and a check hands data over: an instance that is open
  -- in the table is listed as open and not as half-open, one that is half-open is listed as half-open
  -- and not as open, with the request count of the plugin that owns it, and any other instance is in
  -- neither list; and the data has the version of the table.
  pub check_and_sync_faithful :
      (d : ChainData K) (b : CircuitBreakerData K) (id : K)
      → IsUnique d.chain_status_map
      → (check_and_sync d).0 ≡ some b
      → let s = entry d id in
        let in_open = lookup id b.open_instances in
        let in_half_open = lookup id b.half_open_instances in
        ((s.status ≡ opened) × (in_open ≡ some tt) × (in_half_open ≡ none)
          ⊎ (s.status ≡ half_open)
            × (in_open ≡ none)
            × (in_half_open ≡ some (requests_of (plugin_at d.plugin_data s.owner_plugin_index)))
          ⊎ (s.status ≢ opened) × (s.status ≢ half_open) × (in_open ≡ none) × (in_half_open ≡ none))
        × (b.version ≡ d.current_version)
  check_and_sync_faithful d b id u e =
      let (here, there, version) = check_and_sync_parts d b id u e in
      (
        elim (entry-IsListed d.plugin_data (entry d id)) [
          | inl (at, o, h) ↦ inl (at, here ∙ o, there ∙ h)
          | inr (inl (at, o, h)) ↦ inr (inl (at, here ∙ o, there ∙ h))
          | inr (inr (n, m, o, h)) ↦ inr (inr (n, m, here ∙ o, there ∙ h))
        ],
        version,
      )
