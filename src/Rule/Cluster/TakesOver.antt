-- ===== src/Rule/Cluster/TakesOver.antt =====
-- Where the loops of polaris/plugin/service_router/rule_router.cpp find no set that takes over.
use polaris_cpp.Base.{
  true, false, none, List, [], ◌∷◌, not, ◌≡◌, refl, ap, ◌∙◌, arith, inl, inr, Bool-cases, String,
}
use polaris_cpp.Router.Instances.{is_empty}
use polaris_cpp.Rule.Destination.{RuleRouterSet}
use polaris_cpp.Rule.RouteRule.{Data}
use polaris_cpp.Rule.Cluster.{
  SetCircuitBreakerUnhealthyInfo, sort_sets, takes_over, healthy_sets, get_healthy_subset,
  lower_loop,
}
use polaris_cpp.Rule.Cluster.Served.{some_takes_over, any_takes_over}

module _ {F : Type 0} (circuit_breaker_sets : List (String × SetCircuitBreakerUnhealthyInfo F))
    (labels : String) where
  -- A set that takes over goes to the healthy vector.
  pub sort_sets-takes_over :
      (sets : List RuleRouterSet)
      → is_empty (sort_sets circuit_breaker_sets labels sets).cluster_healthy ≡ true
      → some_takes_over circuit_breaker_sets labels sets ≡ false
  unfolding sort_sets takes_over
  sort_sets-takes_over [] e = refl
  sort_sets-takes_over (set ∷ sets) e = elim (Bool-cases set.isolated_) [
    | inl i ↦ ground (arith, i, e, sort_sets-takes_over sets)
    | inr i ↦ ground (arith, i, e, sort_sets-takes_over sets)
  ]

  healthy_sets_empty :
      (sets : List RuleRouterSet)
      → is_empty (healthy_sets circuit_breaker_sets labels sets)
        ≡ not (some_takes_over circuit_breaker_sets labels sets)
  unfolding healthy_sets
  healthy_sets_empty [] = refl
  healthy_sets_empty (set ∷ sets) = elim (Bool-cases (takes_over circuit_breaker_sets labels set)) [
    | inl e ↦ rw (healthy_sets, e) refl
    | inr e ↦ rw (healthy_sets, e) (healthy_sets_empty sets)
  ]

  healthy_sets-takes_over :
      (sets : List RuleRouterSet)
      → (get_healthy_subset circuit_breaker_sets labels sets).0 ≡ false
      → some_takes_over circuit_breaker_sets labels sets ≡ false
  unfolding get_healthy_subset
  healthy_sets-takes_over [] e = refl
  healthy_sets-takes_over (set ∷ sets) e =
      let h = healthy_sets_empty (set ∷ sets) in
      elim (Bool-cases (some_takes_over circuit_breaker_sets labels (set ∷ sets))) [
        | inr f ↦ f
        | inl t ↦
            let q : is_empty (healthy_sets circuit_breaker_sets labels (set ∷ sets)) ≡ false =
              h ∙ ap not t in
            ground (arith, q, e)
      ]

  pub lower_loop-takes_over :
      (data_ : Data)
      → lower_loop circuit_breaker_sets labels data_ ≡ none
      → any_takes_over circuit_breaker_sets labels data_ ≡ false
  unfolding lower_loop
  lower_loop-takes_over [] e = refl
  lower_loop-takes_over ((p, sets) ∷ data_) e =
      ground (arith, e, healthy_sets-takes_over sets, lower_loop-takes_over data_)
