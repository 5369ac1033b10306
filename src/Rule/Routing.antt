-- ===== src/Rule/Routing.antt =====
-- RuleServiceRouter::DoRoute of polaris/plugin/service_router/rule_router.cpp, from the match of the
-- rules to the set it chooses, for a key that is not in its cache. A null pointer is `none`.
use polaris_cpp.Base.{
  ℕ, Bool, true, false, Option, none, some, List, [], if◌then◌else◌, ◌&&◌, not, get_elem?, String,
}
use polaris_cpp.Router.Instances.{Instance}
use polaris_cpp.Rule.MatchString.{Re2}
use polaris_cpp.Rule.Source.{ServiceKey, ServiceInfo}
use polaris_cpp.Rule.RouteRule.{RouteRule}
use polaris_cpp.Rule.RouteMatch.{Matched, route_match}
use polaris_cpp.Rule.Cluster.{Rates, SetCircuitBreakerUnhealthyInfo}
use polaris_cpp.Rule.Choice.{Routed, calculate_value, use_value}

-- The ends of DoRoute: an invalid argument, no rule that matches, nothing to do, or what it makes of
-- a matched rule.
pub data Ending : Type 0 where
  invalid_argument not_match unchanged : Ending
  ended : Routed → Ending

abbrev is_null : {A : Type 0} → Option A → Bool
is_null none = true
is_null (some a) = false

module _ {F : Type 0} (re : Re2) (rates : Rates F) (percent_of_min_instances : F)
    (enable_recover_all : Bool)
    (circuit_breaker_sets : List (String × SetCircuitBreakerUnhealthyInfo F)) (labels : String)
    (service_key : ServiceKey) (instances : List (Instance String)) (unhealthy_set : List ℕ)
    (random : ℕ) where
  abbrev follow_rule : List RouteRule → Option ServiceInfo → Matched → Ending
  follow_rule rules info m = elim (m.matched_route) [
    | none ↦ unchanged
    | some i ↦ elim (get_elem? rules i) [
      | none ↦ unchanged
      | some rule ↦ ended (
          use_value
            (calculate_value re rates percent_of_min_instances enable_recover_all
              circuit_breaker_sets labels rule service_key m.match_outbounds info instances
              unhealthy_set)
            random)
    ]
  ]

  unfoldable pub do_route :
      Option (List RouteRule) → Option (List RouteRule) → Option ServiceInfo → Ending
  unfolding route_match calculate_value use_value
  do_route none source_route_rule source_service_info = invalid_argument
  do_route (some inbounds) source_route_rule source_service_info =
      let m = route_match re source_service_info service_key inbounds source_route_rule true [] in
      let outbounds : List RouteRule = elim source_route_rule [ none ↦ [] | some rs ↦ rs ] in
      if is_null source_service_info && not (is_null source_route_rule)
      then invalid_argument
      else if not m.found
      then not_match
      else follow_rule (if m.match_outbounds then outbounds else inbounds) source_service_info m
