-- ===== src/Rule/Tests.antt =====
-- Runs of the routing by rules. "a" is 97, "b" 98, "c" 99, "v" 118 and "w" 119.
use polaris_cpp.Base.{
  ℕ, Bool, true, false, Option, none, some, List, [], ◌∷◌, ◌≡◌, ◌≢◌, refl, arith, All, String,
  string_key, put, lookup, nat_key, leb, ℕ_discrete,
}
use polaris_cpp.CircuitBreaker.Status.{opened}
use polaris_cpp.LoadBalancer.Counting.{count_from}
use polaris_cpp.Router.Instances.{Instance, same, split, count}
use polaris_cpp.Rule.MatchString.{
  Re2, MatchString, exact, text, parameter, Metadata, RuleMetadata, map_match, map_match_collect,
  map_match_given,
}
use polaris_cpp.Rule.MatchString.Maps.{
  every, accepts, accepts_given, map_match-accepts, parameters_last,
}
use polaris_cpp.Rule.Source.{ServiceKey, ServiceInfo}
use polaris_cpp.Rule.Destination.{RouteRuleDestination, RuleRouterSet, calculate_groups}
use polaris_cpp.Rule.Destination.Groups.{members, in_group, calculate_groups-split}
use polaris_cpp.Rule.RouteRule.{RouteRule, Data}
use polaris_cpp.Rule.RouteMatch.{route_match}
use polaris_cpp.Rule.RouteMatch.First.{Outcome, route_match-Outcome}
use polaris_cpp.Rule.Cluster.{
  Rates, SetCircuitBreakerUnhealthyInfo, calculate_subset, set_status, takes_over,
}
use polaris_cpp.Rule.Cluster.Served.{served, status}
use polaris_cpp.Rule.Cluster.Subset.{calculate_subset_avoids_open}
use polaris_cpp.Rule.Choice.{
  InstancesSet, calculate_route_result, weigh_loop, select_set, use_value,
}
use polaris_cpp.Rule.Choice.Weights.{passes, share, select_share}
use polaris_cpp.Rule.Choice.Recovery.{GetsInstances, value_of, route_never_empty}

-- An engine whose patterns match themselves.
abbrev re : Re2
re = record { ok = λ p. true; partial_match = λ v p. same v p }

abbrev word : ℕ → String
word c = c ∷ []

abbrev exactly : ℕ → MatchString
exactly c = record {
  type_ = exact;
  value_type_ = text;
  data_ = word c;
  regex_ = none;
  all_match = false;
}

abbrev any_parameter : MatchString
any_parameter = record {
  type_ = exact;
  value_type_ = parameter;
  data_ = word 118;
  regex_ = none;
  all_match = false;
}

-- Two parameters, under "a" and "b".
abbrev two_parameters : RuleMetadata
two_parameters = (word 97, any_parameter) ∷ (word 98, any_parameter) ∷ []

abbrev caller : Metadata
caller = (word 97, word 118) ∷ (word 98, word 119) ∷ []

collected : map_match_collect re two_parameters caller [] ≡ (true, 44 ∷ 119 ∷ [])
unfolding map_match_collect lookup ℕ_discrete
collected = refl

map_match-accepts_example :
    (map_match re two_parameters caller ≡ every (accepts re caller) two_parameters)
    × ((map_match_collect re two_parameters caller []).0 ≡ every (accepts re caller) two_parameters)
    × (map_match_given re two_parameters caller caller
        ≡ every (accepts_given re caller caller) two_parameters)
unfolding lookup ℕ_discrete
map_match-accepts_example = map_match-accepts re caller two_parameters caller [] (refl, (refl, tt))

parameters_last_example : (map_match_collect re two_parameters caller []).1 ≡ 44 ∷ word 119
unfolding map_match_collect lookup ℕ_discrete
parameters_last_example =
    parameters_last re caller two_parameters [] (word 118) (word 119) [] refl refl

abbrev instance_of : ℕ → ℕ → Instance String
instance_of address value = record {
  address = address;
  metadata = (word 97, word value) ∷ [];
  region = [];
  zone = [];
  campus = [];
}

-- Any value under "a" as a parameter of the request, so that the subset is the request's value.
abbrev destination : RouteRuleDestination
destination = record {
  service_key_ = record { namespace_ = []; name_ = [] };
  metadata_ = (word 97, record any_parameter { value_type_ = text; all_match = true }) ∷ [];
  weight_ = 0;
  isolate_ = false;
  transfer_service_ = [];
}

abbrev three : List (Instance String)
three = instance_of 1 118 ∷ instance_of 2 119 ∷ instance_of 3 118 ∷ []

-- The group of "a:v".
calculate_groups-split_example :
    members (lookup (97 ∷ 58 ∷ 118 ∷ []) (calculate_groups re destination (3 ∷ []) [] three))
    ≡ split (3 ∷ []) (in_group re destination (3 ∷ []) [] (97 ∷ 58 ∷ 118 ∷ [])) three
calculate_groups-split_example =
    calculate_groups-split re destination (3 ∷ []) [] (97 ∷ 58 ∷ 118 ∷ []) three

group_of_v :
    members (lookup (97 ∷ 58 ∷ 118 ∷ []) (calculate_groups re destination (3 ∷ []) [] three))
    ≡ record { healthy_ = instance_of 1 118 ∷ []; unhealthy_ = instance_of 3 118 ∷ [] }
unfolding calculate_groups lookup put count ℕ_discrete
group_of_v = refl

-- A rule that holds for every request, and one for the service "b" only.
abbrev any_rule : RouteRule
any_rule = record { is_valid_ = true; sources_ = []; destinations_ = [] }

abbrev rule_for_b : RouteRule
rule_for_b = record {
  is_valid_ = true;
  sources_ =
      record {
        src_service_ = record { namespace_ = []; name_ = [] };
        dst_service_ = record { namespace_ = []; name_ = word 98 };
        metadata_ = [];
      }
      ∷ [];
  destinations_ = [];
}

abbrev info : Option ServiceInfo
info =
    some (record { service_key_ = record { namespace_ = []; name_ = word 97 }; metadata_ = caller })

abbrev service_c : ServiceKey
service_c = record { namespace_ = []; name_ = word 99 }

abbrev inbound_rules : List RouteRule
inbound_rules = rule_for_b ∷ any_rule ∷ []

route_match-Outcome_example :
    Outcome re info service_c inbound_rules none true
      (route_match re info service_c inbound_rules none true []).found
      (route_match re info service_c inbound_rules none true []).matched_route
      (route_match re info service_c inbound_rules none true []).match_outbounds
route_match-Outcome_example = route_match-Outcome re info service_c inbound_rules none true []

second_matches : (route_match re info service_c inbound_rules none true []).matched_route ≡ some 1
unfolding route_match lookup ℕ_discrete
second_matches = refl

-- A set of a value of "a", with one healthy and one unhealthy instance.
abbrev set_of : ℕ → ℕ → RuleRouterSet
set_of value weight = record {
  weight_ = weight;
  healthy_ = instance_of 1 value ∷ [];
  unhealthy_ = instance_of 2 value ∷ [];
  subset = (word 97, word value) ∷ [];
  isolated_ = false;
}

-- The breaker of the set of "v" is open.
abbrev breakers : List (String × SetCircuitBreakerUnhealthyInfo ℕ)
breakers =
    (97 ∷ 58 ∷ 118 ∷ 35 ∷ [], record { status = opened; half_open_release_percent = 50 }) ∷ []

-- Rates in percent.
abbrev percent : Rates ℕ
percent = record {
  one = 100;
  passed = λ w r. w;
  held = λ w r. w;
  enough = λ p healthy size. leb size healthy;
}

abbrev sets : Data
sets = (0, set_of 118 1 ∷ []) ∷ (1, set_of 119 3 ∷ []) ∷ []

calculate_subset_avoids_open_example :
    All
      (λ set. status breakers [] set ≢ opened)
      (served (calculate_subset breakers [] percent sets))
unfolding set_status lookup ℕ_discrete takes_over
calculate_subset_avoids_open_example = calculate_subset_avoids_open breakers [] percent sets refl

lower_priority_served : calculate_subset breakers [] percent sets ≡ (1, set_of 119 3 ∷ []) ∷ []
unfolding calculate_subset lookup ℕ_discrete
lower_priority_served = refl

abbrev two_sets : List RuleRouterSet
two_sets = set_of 118 1 ∷ set_of 119 3 ∷ []

abbrev of_v : InstancesSet → Bool
of_v s = elim (lookup (word 97) s.subset_) [ none ↦ false | some v ↦ same v (word 118) ]

select_share_example :
    count_from
      (λ r.
        passes 4 of_v (select_set (weigh_loop 4 two_sets 0 []).1 (weigh_loop 4 two_sets 0 []).0 r))
      0
      (weigh_loop 4 two_sets 0 []).0
    ≡ share 4 of_v two_sets
select_share_example = select_share 4 of_v two_sets (omega arith)

route_never_empty_example :
    GetsInstances
      (use_value (value_of (calculate_route_result (λ healthy size. leb size healthy) true sets)) 7)
unfolding calculate_route_result
route_never_empty_example =
    route_never_empty (λ healthy size. leb size healthy) (λ n pos. ground arith) sets 7
      (omega arith) (omega arith)
