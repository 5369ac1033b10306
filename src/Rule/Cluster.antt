-- ===== src/Rule/Cluster.antt =====
-- polaris/plugin/service_router/rule_router.{h,cpp}: RuleRouterCluster, the sets of instances by
-- priority, of which CalculateSubset keeps those to serve by the circuit breakers of sets, and
-- CalculateRouteResult those with enough healthy instances. The sets that a cluster drops are freed.
-- What the code computes with `float` is a parameter.
pub mod Served
pub mod TakesOver
pub mod Subset
use polaris_cpp.Base.{
  ℕ, suc, Bool, true, false, Option, none, some, List, [], ◌∷◌, ◌++◌, length, if◌then◌else◌, ◌&&◌,
  ◌||◌, not, leb, String, string_key, lookup, add32,
}
use polaris_cpp.CircuitBreaker.Status.{CircuitBreakerStatus, close, half_open, opened, preserved}
use polaris_cpp.Router.Instances.{is_empty}
use polaris_cpp.Rule.Destination.{RuleRouterSet, convert_map_to_str}
use polaris_cpp.Rule.RouteRule.{Data}

-- What the code does with rates: `weight_ *= rate`, `weight_ *= (1 - rate)`, the rate 1.0, and
-- `healthy.size() >= percent * set_size`.
pub record Rates (F : Type 0) : Type 0 where
  pub one : F
  pub passed : ℕ → F → ℕ
  pub held : ℕ → F → ℕ
  pub enough : F → ℕ → ℕ → Bool

-- The fields of SetCircuitBreakerUnhealthyInfo that the router reads.
pub record SetCircuitBreakerUnhealthyInfo (F : Type 0) : Type 0 where
  pub status : CircuitBreakerStatus
  pub half_open_release_percent : F

-- The three vectors of GetHealthyAndHalfOpenSubSet that it uses.
pub record Sorted : Type 0 where
  pub cluster_healthy : List RuleRouterSet
  pub cluster_halfopen : List RuleRouterSet
  pub cluster_unhealthy : List RuleRouterSet

-- Whether a function found something, and the vectors it leaves.
pub record Kept : Type 0 where
  pub found : Bool
  pub cluster : List RuleRouterSet
  pub cluster_halfopen : List RuleRouterSet

abbrev pub is_close : CircuitBreakerStatus → Bool
is_close s = elim s [ close ↦ true | half_open ↦ false | opened ↦ false | preserved ↦ false ]

-- `cluster_highest_priority.push_back(set)`.
abbrev pub push_highest : RuleRouterSet → Data → Data
push_highest set [] = []
push_highest set ((p, sets) ∷ data_) = (p, sets ++ set ∷ []) ∷ data_

module _ {F : Type 0} (circuit_breaker_sets : List (String × SetCircuitBreakerUnhealthyInfo F))
    (labels : String) where
  -- The breaker of the whole subset, and otherwise of the subset with the labels; "#" is 35.
  unfoldable pub get_set_breaker_info : RuleRouterSet → Option (SetCircuitBreakerUnhealthyInfo F)
  unfolding convert_map_to_str
  get_set_breaker_info set =
      let id = convert_map_to_str set.subset in
      elim (lookup (id ++ 35 ∷ []) circuit_breaker_sets) [
        | some info ↦ some info
        | none ↦ lookup (id ++ 35 ∷ labels) circuit_breaker_sets
      ]

  unfoldable pub set_status : RuleRouterSet → CircuitBreakerStatus
  unfolding get_set_breaker_info
  set_status set = elim (get_set_breaker_info set) [ none ↦ close | some info ↦ info.status ]

  unfoldable pub sort_sets : List RuleRouterSet → Sorted
  unfolding set_status
  sort_sets [] = record { cluster_healthy = []; cluster_halfopen = []; cluster_unhealthy = [] }
  sort_sets (set ∷ sets) =
      let rest = sort_sets sets in
      if set.isolated_ then rest else elim (set_status set) [
        | close ↦ record rest { cluster_healthy = set ∷ rest.cluster_healthy }
        | preserved ↦ record rest { cluster_healthy = set ∷ rest.cluster_healthy }
        | half_open ↦ record rest { cluster_halfopen = set ∷ rest.cluster_halfopen }
        | opened ↦ record rest { cluster_unhealthy = set ∷ rest.cluster_unhealthy }
      ]

  unfoldable pub get_healthy_and_half_open_subset : List RuleRouterSet → Kept
  unfolding sort_sets
  get_healthy_and_half_open_subset cluster =
      let s = sort_sets cluster in
      if is_empty cluster
      then record { found = false; cluster = cluster; cluster_halfopen = [] }
      else if not (is_empty s.cluster_healthy) || not (is_empty s.cluster_halfopen)
      then record {
        found = true;
        cluster = s.cluster_healthy;
        cluster_halfopen = s.cluster_halfopen;
      }
      else record {
        found = false;
        cluster = s.cluster_unhealthy;
        cluster_halfopen = s.cluster_halfopen;
      }

  -- A set that may take another's requests.
  unfoldable pub takes_over : RuleRouterSet → Bool
  unfolding set_status
  takes_over set = not set.isolated_ && is_close (set_status set)

  -- `cluster_healthy` of GetHealthySubSet, and whether it is not empty.
  unfoldable pub healthy_sets : List RuleRouterSet → List RuleRouterSet
  unfolding takes_over
  healthy_sets [] = []
  healthy_sets (set ∷ sets) =
      let rest = healthy_sets sets in if takes_over set then set ∷ rest else rest

  unfoldable pub get_healthy_subset : List RuleRouterSet → Bool × List RuleRouterSet
  unfolding healthy_sets
  get_healthy_subset cluster =
      if is_empty cluster
      then (false, cluster)
      else if not (is_empty (healthy_sets cluster))
      then (true, healthy_sets cluster)
      else (false, cluster)

  -- The loops of GetDownGradeSubset: the first set that takes over, with the sets without it.
  unfoldable pub down_grade_in : List RuleRouterSet → Option (RuleRouterSet × List RuleRouterSet)
  unfolding takes_over
  down_grade_in [] = none
  down_grade_in (set ∷ sets) =
      let rest : Option (RuleRouterSet × List RuleRouterSet) = elim (down_grade_in sets) [
        | none ↦ none
        | some (s, ss) ↦ some (s, set ∷ ss)
      ] in
      if takes_over set then some (set, sets) else rest

  unfoldable pub down_grade_loop : Data → Option (RuleRouterSet × Data)
  unfolding down_grade_in
  down_grade_loop [] = none
  down_grade_loop ((p, sets) ∷ data_) =
      let rest : Option (RuleRouterSet × Data) = elim (down_grade_loop data_) [
        | none ↦ none
        | some (s, d) ↦ some (s, (p, sets) ∷ d)
      ] in
      elim (down_grade_in sets) [ some (s, ss) ↦ some (s, (p, ss) ∷ data_) | none ↦ rest ]

  unfoldable pub get_down_grade_subset : Data → Option (RuleRouterSet × Data)
  unfolding down_grade_loop
  get_down_grade_subset [] = none
  get_down_grade_subset (first ∷ data_) = elim (down_grade_loop data_) [
    | none ↦ none
    | some (s, d) ↦ some (s, first ∷ d)
  ]

  -- The lower priorities: the first with a healthy set.
  unfoldable pub lower_loop : Data → Option (ℕ × List RuleRouterSet)
  unfolding get_healthy_subset
  lower_loop [] = none
  lower_loop ((p, sets) ∷ data_) =
      let rest = lower_loop data_ in
      let r = get_healthy_subset sets in if r.0 then some (p, r.1) else rest

  module _ (rates : Rates F) where
    -- One half-open set: it shares its requests with a set that takes over, by its rate.
    unfoldable pub serve_half_open : RuleRouterSet → Data → Data
    unfolding get_set_breaker_info get_down_grade_subset
    serve_half_open set data_ = elim (get_down_grade_subset data_) [
      | none ↦ push_highest set data_
      | some (downgrade, d) ↦
          let pass_rate : F = elim (get_set_breaker_info set) [
            | none ↦ rates.one
            | some info ↦ info.half_open_release_percent
          ] in
          push_highest (record downgrade { weight_ = rates.held downgrade.weight_ pass_rate })
            (push_highest (record set { weight_ = rates.passed set.weight_ pass_rate }) d)
    ]

    unfoldable pub share_loop : List RuleRouterSet → Data → Data
    unfolding serve_half_open
    share_loop [] data_ = data_
    share_loop (set ∷ sets) data_ = share_loop sets (serve_half_open set data_)

    -- CalculateSubset after its call of GetHealthyAndHalfOpenSubSet.
    unfoldable pub serve_kept : ℕ → Kept → Data → Data
    unfolding share_loop lower_loop
    serve_kept p kept data_ =
        if kept.found
        then share_loop kept.cluster_halfopen ((p, kept.cluster) ∷ data_)
        else elim (lower_loop data_) [
          | some replaced ↦ replaced ∷ []
          | none ↦ (p, kept.cluster) ∷ data_
        ]

    unfoldable pub calculate_subset : Data → Data
    unfolding get_healthy_and_half_open_subset serve_kept
    calculate_subset [] = []
    calculate_subset ((p, sets) ∷ data_) =
        serve_kept p (get_healthy_and_half_open_subset sets) data_
