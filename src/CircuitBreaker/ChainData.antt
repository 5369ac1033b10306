-- ===== src/CircuitBreaker/ChainData.antt =====
-- polaris/plugin/circuit_breaker/chain.{h,cpp}: CircuitBreakerChainData, the table of instance
-- states that all breakers of one service share, and InstancesCircuitBreakerStatus, the view of it
-- that one breaker has. Each method runs under `lock_`, so a method is one step.
pub mod Laws
pub mod History
pub mod Sync
use polaris_cpp.Base.{
  ℕ, zero, suc, Bool, true, false, not, ◌&&◌, ite, Option, none, some, List, [], ◌∷◌, ◌++◌, Key,
  lookup, insert, erase, collect, ◌==◌, if◌then◌else◌, get_elem?, add64, add32,
}
use polaris_cpp.CircuitBreaker.Status.{
  CircuitBreakerStatus, close, half_open, opened, preserved, CircuitBreakerStatus-discrete, Clock,
}

pub record PluginData (K : Type 0) : Type 0 where
  pub plugin_name : K
  pub request_after_half_open : ℕ

pub record ChainStatus : Type 0 where
  pub status : CircuitBreakerStatus
  pub owner_plugin_index : ℕ
  pub change_seq_id : ℕ

-- The default constructor.
abbrev pub new_chain_status : ChainStatus
new_chain_status = record { status = close; owner_plugin_index = 0; change_seq_id = 0 }

pub record ChainData (K : Type 0) : Type 0 where
  pub plugin_data : List (PluginData K)
  pub last_update_version : ℕ
  pub current_version : ℕ
  pub chain_status_map : List (K × ChainStatus)

-- `reason` is `none` where the plugin index is outside `plugin_data_map_`, which C++ leaves undefined.
pub record CircuitChangeRecord (K : Type 0) : Type 0 where
  pub change_time : ℕ
  pub change_seq : ℕ
  pub from_status : CircuitBreakerStatus
  pub to_status : CircuitBreakerStatus
  pub reason : Option K

pub record CircuitBreakerData (K : Type 0) : Type 0 where
  pub version : ℕ
  pub open_instances : List (K × Unit {0})
  pub half_open_instances : List (K × Option ℕ)

module _ {K : Type 0} where
  unfoldable pub init : ChainData K
  init = record {
    plugin_data = [];
    last_update_version = 0;
    current_version = 0;
    chain_status_map = [];
  }

  unfoldable pub append_plugin_data : ChainData K → PluginData K → ChainData K
  append_plugin_data d p = record d { plugin_data = d.plugin_data ++ p ∷ [] }

  -- `plugin_data_map_[plugin_index - 1]`: plugins are numbered from 1.
  unfoldable pub plugin_at : List (PluginData K) → ℕ → Option (PluginData K)
  plugin_at ps zero = none
  plugin_at ps (suc i) = get_elem? ps i

abbrev pub or_new : Option ChainStatus → ChainStatus
or_new none = new_chain_status
or_new (some s) = s

-- A foreign owner: another plugin took the instance out of service.
abbrev pub foreign : ℕ → ChainStatus → Bool
foreign plugin_index s =
    not (s.owner_plugin_index == 0) && not (s.owner_plugin_index == plugin_index)

-- An open instance, and a half-open one with the requests that its owner lets through.
abbrev pub open_part : ChainStatus → Option (Unit {0})
open_part s = elim s.status [ opened ↦ some tt | _ ↦ none ]

abbrev pub half_open_part : {K : Type 0} → List (PluginData K) → ChainStatus → Option (Option ℕ)
half_open_part ps s = elim s.status [
  | half_open ↦ some (elim (plugin_at ps s.owner_plugin_index) [
    | none ↦ none
    | some p ↦ some p.request_after_half_open
  ])
  | _ ↦ none
]

module _ {K : Type 0} ⦃key : Key K⦄ where
  -- What `chain_status_map_[instance_id]` reads.
  unfoldable pub entry : ChainData K → K → ChainStatus
  entry d id = or_new (lookup id d.chain_status_map)

  -- `operator[]` adds a default entry for an unknown instance.
  unfoldable pub touch : ChainData K → K → ChainData K
  touch d id = record d { chain_status_map = insert id (entry d id) d.chain_status_map }

  -- The tail of TranslateStatus, from the new record on.
  unfoldable pub change_status :
      ChainData K
      → ℕ
      → K
      → ChainStatus
      → CircuitBreakerStatus
      → CircuitBreakerStatus
      → ℕ
      → Option (CircuitChangeRecord K) × ChainData K
  unfolding plugin_at
  change_status d plugin_index id s from to now =
      let seq : ℕ = add32 s.change_seq_id 1 in
      (
        some (record {
          change_time = now;
          change_seq = seq;
          from_status = from;
          to_status = to;
          reason = elim (plugin_at d.plugin_data plugin_index) [
            | none ↦ none
            | some p ↦ some p.plugin_name
          ];
        }),
        record d {
          current_version = add64 d.current_version 1;
          chain_status_map =
              ite (CircuitBreakerStatus-discrete to close) (erase id d.chain_status_map) (
                insert id
                  (record { status = to; owner_plugin_index = plugin_index; change_seq_id = seq })
                  d.chain_status_map);
        },
      )

  -- CircuitBreakerChainData::TranslateStatus. The entry is touched whatever the outcome.
  unfoldable pub translate_status :
      ChainData K
      → ℕ
      → K
      → CircuitBreakerStatus
      → CircuitBreakerStatus
      → ℕ
      → Option (CircuitChangeRecord K) × ChainData K
  translate_status d plugin_index id from to now =
      let s = entry d id in
      let d' = touch d id in
      if foreign plugin_index s
      then (none, d')
      else ite (CircuitBreakerStatus-discrete s.status from)
          (ite (CircuitBreakerStatus-discrete s.status to) (none, d')
            (change_status d' plugin_index id s from to now))
          (none, d')

  -- CheckAndSyncToLocalRegistry: what goes to the local registry, if anything does.
  unfoldable pub check_and_sync : ChainData K → Option (CircuitBreakerData K) × ChainData K
  unfolding plugin_at collect
  check_and_sync d = if d.last_update_version == d.current_version then (none, d) else (
    some (record {
      version = d.current_version;
      open_instances = collect open_part d.chain_status_map;
      half_open_instances = collect (half_open_part d.plugin_data) d.chain_status_map;
    }),
    record d { last_update_version = d.current_version },
  )

-- The chain's table, and what ServiceRecord::InstanceCircuitBreak was handed, newest first.
pub record Shared (K : Type 0) : Type 0 where
  pub chain : ChainData K
  pub records : List (K × CircuitChangeRecord K)

pub record InstancesStatus : Type 0 where
  pub plugin_index : ℕ
  pub auto_half_open_enable : Bool

module _ {K : Type 0} ⦃key : Key K⦄ where
  abbrev pub note : K → Option (CircuitChangeRecord K) × ChainData K → Shared K → Bool × Shared K
  note id (none, d) w = (false, record w { chain = d })
  note id (some r, d) w = (true, record { chain = d; records = (id, r) ∷ w.records })

  -- InstancesCircuitBreakerStatus::TranslateStatus.
  unfoldable pub translate :
      InstancesStatus
      → Clock
      → K
      → CircuitBreakerStatus
      → CircuitBreakerStatus
      → Shared K
      → Bool × Shared K
  translate i now id from to w =
      note id (translate_status w.chain i.plugin_index id from to now.system) w

  -- What the breakers do with the answer: the status is rewritten if the chain agreed.
  unfoldable pub follow : {S : Type 0} → Bool × Shared K → S → S → S × Shared K
  follow r new old = (if r.0 then new else old, r.1)
