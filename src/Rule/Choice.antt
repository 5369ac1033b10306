-- ===== src/Rule/Choice.antt =====
-- polaris/plugin/service_router/rule_router.cpp, RuleRouterCluster::CalculateRouteResult and what
-- RuleServiceRouter::DoRoute makes of it, with ServiceRouteRule::SelectSet of
-- polaris/model/service_route_rule.cpp. The cache of DoRoute and the event that it reports are left
-- out: the value is what it computes for a key that is not there.
pub mod Weights
pub mod Recovery
use polaris_cpp.Base.{
  ℕ, zero, suc, ◌+◌, ◌%◌, Bool, true, false, Option, none, some, List, [], ◌∷◌, ◌++◌, length,
  if◌then◌else◌, ◌&&◌, not, ltb, leb, ◌==◌, String, nat_key, lookup, put, add32,
}
use polaris_cpp.Router.Instances.{Instance, is_empty}
use polaris_cpp.Rule.MatchString.{Re2, Metadata}
use polaris_cpp.Rule.Source.{ServiceKey, ServiceInfo}
use polaris_cpp.Rule.Destination.{RuleRouterSet}
use polaris_cpp.Rule.RouteRule.{RouteRule, Data, Calculated, rule_calculate_set}
use polaris_cpp.Rule.Cluster.{Rates, SetCircuitBreakerUnhealthyInfo, calculate_subset}

-- What CalculateRouteResult returns and puts into its arguments.
pub record RouteResult : Type 0 where
  pub result : List RuleRouterSet
  pub sum_weight : ℕ
  pub downgrade : Bool

-- The instances with the subset that the result of the route is made of.
pub record InstancesSet : Type 0 where
  pub instances_ : List (Instance String)
  pub subset_ : Metadata

pub record RuleRouterCacheValue : Type 0 where
  pub is_redirect_ : Bool
  pub redirect_service_ : ServiceKey
  pub subsets_ : List (ℕ × InstancesSet)
  pub subset_sum_weight_ : ℕ

module _ (enough : ℕ → ℕ → Bool) where
  -- A set with its unhealthy instances among the healthy ones where that is asked.
  abbrev pub recovered : Bool → RuleRouterSet → RuleRouterSet
  recovered downgrade set =
      if downgrade then record set { healthy_ = set.healthy_ ++ set.unhealthy_ } else set

  abbrev pub enters : Bool → RuleRouterSet → Bool
  enters downgrade set =
      let set_size = length set.healthy_ + length set.unhealthy_ in
      let set' = recovered downgrade set in
      not (is_empty set'.healthy_) && enough (length set'.healthy_) set_size

  -- One round over the cluster, from the sum so far.
  unfoldable pub result_round : Bool → List RuleRouterSet → ℕ → List RuleRouterSet × ℕ
  result_round downgrade [] sum_weight = ([], sum_weight)
  result_round downgrade (set ∷ sets) sum_weight =
      let set' = recovered downgrade set in
      let rest =
        result_round downgrade sets
          (if enters downgrade set then add32 sum_weight set'.weight_ else sum_weight) in
      (if enters downgrade set then set' ∷ rest.0 else rest.0, rest.1)

  unfoldable pub calculate_route_result : Bool → Data → RouteResult
  unfolding result_round
  calculate_route_result enable_recover_all [] = record {
    result = [];
    sum_weight = 0;
    downgrade = false;
  }
  calculate_route_result enable_recover_all ((p, cluster) ∷ data_) =
      let first = result_round false cluster 0 in
      let second = result_round true cluster first.1 in
      if not (is_empty first.0)
      then record { result = first.0; sum_weight = first.1; downgrade = false }
      else if enable_recover_all
      then record { result = second.0; sum_weight = second.1; downgrade = true }
      else record { result = first.0; sum_weight = first.1; downgrade = false }

abbrev pub instances_set : RuleRouterSet → InstancesSet
instances_set set = record { instances_ = set.healthy_; subset_ = set.subset }

-- `insert` of a `std::map`: what stands at the key stays.
unfoldable pub insert_new : ℕ → InstancesSet → List (ℕ × InstancesSet) → List (ℕ × InstancesSet)
insert_new k v m = elim (lookup k m) [ some w ↦ m | none ↦ put ltb k v m ]

-- A set's weight where the weights add up to `sum_weight`: 100 each where they add up to nothing.
abbrev pub weight_in : ℕ → RuleRouterSet → ℕ
weight_in sum_weight set = if leb sum_weight 0 then 100 else set.weight_

-- The loop over the result, from the weight and the sets so far: a set without weight is left out.
unfoldable pub weigh_loop :
    ℕ → List RuleRouterSet → ℕ → List (ℕ × InstancesSet) → ℕ × List (ℕ × InstancesSet)
unfolding insert_new
weigh_loop sum_weight [] weight subsets = (weight, subsets)
weigh_loop sum_weight (set ∷ sets) weight subsets =
    let w = weight_in sum_weight set in
    let weight' = add32 weight w in
    if leb w 0
    then weigh_loop sum_weight sets weight subsets
    else weigh_loop sum_weight sets weight' (insert_new weight' (instances_set set) subsets)

-- `upper_bound`: the first entry whose key is above the value.
unfoldable pub first_above : List (ℕ × InstancesSet) → ℕ → Option InstancesSet
first_above [] value = none
first_above ((k, s) ∷ m) value =
    let rest = first_above m value in if ltb value k then some s else rest

-- SelectSet, where `random` is what rand_r returned; `none` is a read behind the map's end.
unfoldable pub select_set : List (ℕ × InstancesSet) → ℕ → ℕ → Option InstancesSet
unfolding first_above
select_set cluster sum_weight random = first_above cluster (random % sum_weight)

module _ {F : Type 0} (re : Re2) (rates : Rates F) (percent_of_min_instances : F)
    (enable_recover_all : Bool)
    (circuit_breaker_sets : List (String × SetCircuitBreakerUnhealthyInfo F))
    (labels : String) where
  -- The value that DoRoute computes for a matched rule.
  unfoldable pub calculate_value :
      RouteRule
      → ServiceKey
      → Bool
      → Option ServiceInfo
      → List (Instance String)
      → List ℕ
      → RuleRouterCacheValue
  unfolding rule_calculate_set calculate_subset calculate_route_result weigh_loop
  calculate_value rule service_key match_outbounds source_service_info instances unhealthy_set =
      let parameters : Metadata = elim source_service_info [
        | none ↦ []
        | some info ↦ info.metadata_
      ] in
      let c =
        rule_calculate_set re match_outbounds instances unhealthy_set parameters rule service_key
          [] in
      let r =
        calculate_route_result (rates.enough percent_of_min_instances) enable_recover_all
          (calculate_subset circuit_breaker_sets labels rates c.result) in
      let w = weigh_loop r.sum_weight r.result 0 [] in
      if not c.complete
      then record {
        is_redirect_ = true;
        redirect_service_ = c.service_key;
        subsets_ = [];
        subset_sum_weight_ = 0;
      }
      else record {
        is_redirect_ = false;
        redirect_service_ = record { namespace_ = []; name_ = [] };
        subsets_ = w.1;
        subset_sum_weight_ = w.0;
      }

-- What DoRoute ends with after the value: a redirection, kReturnRouteRuleNotMatch, or the instances
-- that the route gives on, `none` where it reads behind the end.
pub data Routed : Type 0 where
  redirected : ServiceKey → Routed
  rule_not_match : Routed
  routed : Option InstancesSet → Routed

unfoldable pub use_value : RuleRouterCacheValue → ℕ → Routed
unfolding select_set
use_value value random =
    if value.is_redirect_
    then redirected value.redirect_service_
    else if value.subset_sum_weight_ == 0
    then rule_not_match
    else routed (select_set value.subsets_ value.subset_sum_weight_ random)
