-- ===== src/Rule/RouteMatch.antt =====
-- ServiceRouteRule::RouteMatch of polaris/model/service_route_rule.cpp: the callee's inbound rules,
-- then the caller's outbound rules. A matched RouteRuleBound* is its index in its list.
pub mod First
use polaris_cpp.Base.{
  ℕ, suc, Bool, true, false, Option, none, some, List, [], ◌∷◌, if◌then◌else◌, not, String,
}
use polaris_cpp.Router.Instances.{is_empty}
use polaris_cpp.Rule.MatchString.{Re2}
use polaris_cpp.Rule.Source.{ServiceKey, ServiceInfo}
use polaris_cpp.Rule.RouteRule.{RouteRule, rule_match_source}

-- The result of RouteMatch, and the arguments it sets.
pub record Matched : Type 0 where
  pub found : Bool
  pub matched_route : Option ℕ
  pub match_outbounds : Bool
  pub parameters : String

module _ (re : Re2) (source_service_info : Option ServiceInfo) (dst_service : ServiceKey) where
  -- The loop over one list: the index of the first rule that matches.
  unfoldable pub bound_loop : List RouteRule → ℕ → String → Option ℕ × String
  unfolding rule_match_source
  bound_loop [] i parameters = (none, parameters)
  bound_loop (rule ∷ rules) i parameters =
      let r = rule_match_source re rule source_service_info dst_service parameters in
      let rest = bound_loop rules (suc i) r.1 in if r.0 then (some i, r.1) else rest

  -- `src_route_rule` is `none` for a null pointer.
  unfoldable pub route_match : List RouteRule → Option (List RouteRule) → Bool → String → Matched
  unfolding bound_loop
  route_match inbounds src_route_rule match_outbounds parameters =
      let in_ = bound_loop inbounds 0 parameters in
      elim (in_.0) [
        | some i ↦ record {
          found = true;
          matched_route = some i;
          match_outbounds = false;
          parameters = in_.1;
        }
        | none ↦
            let fail : Bool → String → Matched = λ found p. record {
              found = found;
              matched_route = none;
              match_outbounds = match_outbounds;
              parameters = p;
            } in
            if not (is_empty inbounds) then fail false in_.1 else elim src_route_rule [
              | none ↦ fail true in_.1
              | some outbounds ↦
                  let out = bound_loop outbounds 0 in_.1 in
                  elim (out.0) [
                    | some i ↦ record {
                      found = true;
                      matched_route = some i;
                      match_outbounds = true;
                      parameters = out.1;
                    }
                    | none ↦ if not (is_empty outbounds) then fail false out.1 else fail true out.1
                  ]
            ]
      ]
