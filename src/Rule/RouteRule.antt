-- ===== src/Rule/RouteRule.antt =====
-- polaris/model/route_rule.{h,cpp} and ServiceRouteRule::RouteMatch of
-- polaris/model/service_route_rule.cpp. A matched RouteRuleBound* is its index in the list that
-- `match_outbounds` tells; logging is left out.
use polaris_cpp.Base.{
  ℕ, Bool, true, false, Option, none, some, List, [], ◌∷◌, ◌++◌, if◌then◌else◌, ◌&&◌, ltb, not,
  String, put, lookup, nat_key,
}
use polaris_cpp.Router.Instances.{Instance, is_empty}
use polaris_cpp.Rule.MatchString.{Re2, Metadata}
use polaris_cpp.Rule.Source.{
  ServiceKey, ServiceInfo, PbSource, RouteRuleSource, init_source, fill_source, match_source,
  is_wildcard_rule,
}
use polaris_cpp.Rule.Destination.{
  PbDestination, RouteRuleDestination, RuleRouterSet, Groups, init_destination, fill_destination,
  match_destination, has_transfer, calculate_groups,
}

-- `destinations_`, by priority.
abbrev pub Destinations : Type 0
Destinations = List (ℕ × List RouteRuleDestination)

-- The sets of a cluster, by priority.
abbrev pub Data : Type 0
Data = List (ℕ × List RuleRouterSet)

pub record RouteRule : Type 0 where
  pub is_valid_ : Bool
  pub sources_ : List RouteRuleSource
  pub destinations_ : Destinations

-- `m[k].push_back(v)`.
unfoldable pub push_at : {A : Type 0} → ℕ → A → List (ℕ × List A) → List (ℕ × List A)
push_at k v m = put ltb k (elim (lookup k m) [ none ↦ v ∷ [] | some vs ↦ vs ++ v ∷ [] ]) m

module _ (re : Re2) where
  -- Once a part is invalid the rest is added without its Init.
  unfoldable pub init_sources : List PbSource → RouteRule → RouteRule
  unfolding init_source
  init_sources [] rule = rule
  init_sources (pb ∷ pbs) rule =
      let blank : RouteRuleSource = record {
        src_service_ = record { namespace_ = []; name_ = [] };
        dst_service_ = record { namespace_ = []; name_ = [] };
        metadata_ = [];
      } in
      let r = if rule.is_valid_ then init_source re pb else (false, blank) in
      init_sources pbs (record rule { is_valid_ = r.0; sources_ = rule.sources_ ++ r.1 ∷ [] })

  unfoldable pub init_destinations : List PbDestination → RouteRule → RouteRule
  unfolding init_destination push_at
  init_destinations [] rule = rule
  init_destinations (pb ∷ pbs) rule =
      let blank : RouteRuleDestination = record {
        service_key_ = record { namespace_ = []; name_ = [] };
        metadata_ = [];
        weight_ = 0;
        isolate_ = false;
        transfer_service_ = [];
      } in
      let priority : ℕ = elim (pb.priority) [ none ↦ 9 | some p ↦ p ] in
      let r = if rule.is_valid_ then init_destination re pb else (false, blank) in
      init_destinations pbs
        (record rule { is_valid_ = r.0; destinations_ = push_at priority r.1 rule.destinations_ })

  unfoldable pub init_from_pb : List PbSource → List PbDestination → RouteRule
  unfolding init_sources init_destinations
  init_from_pb sources destinations =
      init_destinations destinations
        (init_sources sources (record { is_valid_ = true; sources_ = []; destinations_ = [] }))

  -- The parts up to the first that fails; whether all could be filled, from a flag.
  unfoldable pub fill_all : {A : Type 0} → (A → Bool × A) → Bool → List A → Bool × List A
  fill_all fill valid [] = (valid, [])
  fill_all fill valid (x ∷ xs) =
      let r = if valid then fill x else (false, x) in
      let rest = fill_all fill r.0 xs in (rest.0, r.1 ∷ rest.1)

  unfoldable pub fill_destinations :
      (String → Option String) → Bool → Destinations → Bool × Destinations
  unfolding fill_all fill_destination
  fill_destinations get valid [] = (valid, [])
  fill_destinations get valid ((p, ds) ∷ rest) =
      let r = fill_all (fill_destination re get) valid ds in
      let rest = fill_destinations get r.0 rest in (rest.0, (p, r.1) ∷ rest.1)

  unfoldable pub fill_system_variables : (String → Option String) → RouteRule → RouteRule
  unfolding fill_all fill_source fill_destinations
  fill_system_variables get rule =
      let s = fill_all (fill_source re get) rule.is_valid_ rule.sources_ in
      let d = fill_destinations get s.0 rule.destinations_ in
      record { is_valid_ = d.0; sources_ = s.1; destinations_ = d.1 }

  -- The loop of MatchSource over the sources, with a caller and without.
  unfoldable pub match_sources :
      ServiceInfo → ServiceKey → List RouteRuleSource → String → Bool × String
  unfolding match_source
  match_sources info dst_service [] parameters = (false, parameters)
  match_sources info dst_service (s ∷ ss) parameters =
      let r = match_source re s info.service_key_ dst_service info.metadata_ parameters in
      let rest = match_sources info dst_service ss r.1 in if r.0 then r else rest

  abbrev pub some_wildcard : List RouteRuleSource → Bool
  some_wildcard [] = false
  some_wildcard (s ∷ ss) = let rest = some_wildcard ss in if is_wildcard_rule s then true else rest

  unfoldable pub rule_match_source :
      RouteRule → Option ServiceInfo → ServiceKey → String → Bool × String
  unfolding match_sources is_wildcard_rule
  rule_match_source rule service_info dst_service parameters =
      if not rule.is_valid_ then (false, parameters) else elim service_info [
        | some info ↦
            let r = match_sources info dst_service rule.sources_ parameters in
            if r.0 then r else (is_empty rule.sources_, r.1)
        | none ↦
            if some_wildcard rule.sources_
            then (true, parameters)
            else (is_empty rule.sources_, parameters)
      ]

  -- The sets of one destination with an instance, with their weights, behind those of the priority.
  unfoldable pub push_groups : ℕ → ℕ → Groups → Data → Data
  unfolding push_at
  push_groups priority weight [] result = result
  push_groups priority weight ((id, set) ∷ groups) result = push_groups priority weight groups (
      if not (is_empty set.healthy_ && is_empty set.unhealthy_)
      then push_at priority (record set { weight_ = weight }) result
      else result)

  -- What CalculateSet returns, with the service it is told to go to and the sets.
  pub record Calculated : Type 0 where
    pub complete : Bool
    pub service_key : ServiceKey
    pub result : Data

  module _ (match_service : Bool) (instances : List (Instance String)) (unhealthy_set : List ℕ)
      (parameters : Metadata) where
    -- The destinations of one priority.
    unfoldable pub destination_loop : ℕ → ServiceKey → List RouteRuleDestination → Data → Calculated
    unfolding match_destination calculate_groups push_groups
    destination_loop priority service_key [] result = record {
      complete = true;
      service_key = service_key;
      result = result;
    }
    destination_loop priority service_key (d ∷ ds) result =
        let skipped = destination_loop priority service_key ds result in
        let added = destination_loop priority service_key ds (
          push_groups priority d.weight_ (calculate_groups re d unhealthy_set parameters instances)
            result) in
        if match_service && not (match_destination d service_key)
        then skipped
        else if has_transfer d
        then record {
          complete = false;
          service_key = record service_key { name_ = d.transfer_service_ };
          result = result;
        }
        else added

    unfoldable pub priority_loop : ServiceKey → Destinations → Data → Calculated
    unfolding destination_loop
    priority_loop service_key [] result = record {
      complete = true;
      service_key = service_key;
      result = result;
    }
    priority_loop service_key ((p, ds) ∷ rest) result =
        let r = destination_loop p service_key ds result in
        let further = priority_loop service_key rest r.result in if r.complete then further else r

    unfoldable pub rule_calculate_set : RouteRule → ServiceKey → Data → Calculated
    unfolding priority_loop
    rule_calculate_set rule service_key result = priority_loop service_key rule.destinations_ result
