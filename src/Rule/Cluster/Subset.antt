-- ===== src/Rule/Cluster/Subset.antt =====
-- RuleRouterCluster::CalculateSubset of polaris/plugin/service_router/rule_router.cpp: which sets it
-- leaves to serve.
use polaris_cpp.Base.{
  ℕ, true, false, none, some, List, [], ◌∷◌, ◌||◌, not, ◌≡◌, ◌≢◌, ◌⊎◌, refl, sym, ap, arith, inl,
  inr, Bool-cases, Option-cases, String, All,
}
use polaris_cpp.CircuitBreaker.Status.{CircuitBreakerStatus, close, half_open, opened, preserved}
use polaris_cpp.Router.Instances.{is_empty}
use polaris_cpp.Rule.Destination.{RuleRouterSet}
use polaris_cpp.Rule.RouteRule.{Data}
use polaris_cpp.Rule.Cluster.{
  Rates, SetCircuitBreakerUnhealthyInfo, Sorted, Kept, set_status, get_set_breaker_info, sort_sets,
  get_healthy_and_half_open_subset, takes_over, healthy_sets, get_healthy_subset, lower_loop,
  serve_kept, calculate_subset,
}
use polaris_cpp.Rule.Cluster.Served.{
  served, status, some_takes_over, any_takes_over, share_loop-All,
}
use polaris_cpp.Rule.Cluster.TakesOver.{sort_sets-takes_over, lower_loop-takes_over}

status_cases :
    (s : CircuitBreakerStatus) → ((s ≡ opened) ⊎ (s ≡ half_open)) ⊎ ((s ≡ close) ⊎ (s ≡ preserved))
status_cases close = inr (inl refl)
status_cases half_open = inl (inr refl)
status_cases opened = inl (inl refl)
status_cases preserved = inr (inr refl)

module _ {F : Type 0} (circuit_breaker_sets : List (String × SetCircuitBreakerUnhealthyInfo F))
    (labels : String) where
  module _ (rates : Rates F) (P : RuleRouterSet → Type 0)
      (weight_free : (set : RuleRouterSet) (w : ℕ) → P set → P (record set { weight_ = w }))
      (ok : (set : RuleRouterSet)
        → set.isolated_ ≡ false
        → status circuit_breaker_sets labels set ≢ opened
        → P set) where
    taken_ok : (set : RuleRouterSet) → takes_over circuit_breaker_sets labels set ≡ true → P set
    unfolding takes_over
    taken_ok set e = ok set (ground (arith, e)) (λ o. ground (arith, o, e))

    healthy_sets-All :
        (sets : List RuleRouterSet) → All P (healthy_sets circuit_breaker_sets labels sets)
    unfolding healthy_sets
    healthy_sets-All [] = tt
    healthy_sets-All (set ∷ sets) = elim (Bool-cases (takes_over circuit_breaker_sets labels set)) [
      | inl e ↦ rw (healthy_sets, e) (taken_ok set e, healthy_sets-All sets)
      | inr e ↦ rw (healthy_sets, e) (healthy_sets-All sets)
    ]

    -- The vectors of the sort: the healthy and the half-open sets, and the open ones.
    abbrev AllSorted : Sorted → Type 0
    AllSorted s =
        All P s.cluster_healthy
        × (All P s.cluster_halfopen × All (λ set. set.isolated_ ≡ false) s.cluster_unhealthy)

    sort_sets-All :
        (sets : List RuleRouterSet) → AllSorted (sort_sets circuit_breaker_sets labels sets)
    unfolding sort_sets
    sort_sets-All [] = (tt, (tt, tt))
    sort_sets-All (set ∷ sets) =
        let rest = sort_sets-All sets in
        elim (Bool-cases set.isolated_) [
          | inl i ↦ rw (sort_sets, i) rest
          | inr i ↦ elim (status_cases (status circuit_breaker_sets labels set)) [
            | inl (inl e) ↦ rw (sort_sets, i, e) (rest.0, (rest.1.0, (i, rest.1.1)))
            | inl (inr e) ↦
                rw (sort_sets, i, e) (rest.0, ((ok set i (λ o. cc), rest.1.0), rest.1.1))
            | inr (inl e) ↦ rw (sort_sets, i, e) ((ok set i (λ o. cc), rest.0), rest.1)
            | inr (inr e) ↦ rw (sort_sets, i, e) ((ok set i (λ o. cc), rest.0), rest.1)
          ]
        ]

    -- The sets are all of the kind, or nothing takes over anywhere and they are not isolated.
    abbrev Served : Data → Data → Type 0
    Served before after =
        All P (served after)
        ⊎ ((any_takes_over circuit_breaker_sets labels before ≡ false)
            × All (λ set. set.isolated_ ≡ false) (served after))

    get_healthy_subset-All :
        (sets : List RuleRouterSet)
        → (get_healthy_subset circuit_breaker_sets labels sets).0 ≡ true
        → All P (get_healthy_subset circuit_breaker_sets labels sets).1
    unfolding get_healthy_subset
    get_healthy_subset-All [] e = tt
    get_healthy_subset-All (set ∷ sets) e =
        let found = healthy_sets circuit_breaker_sets labels (set ∷ sets) in
        elim (Bool-cases (not (is_empty found))) [
          | inl t ↦ rw (get_healthy_subset, t) (healthy_sets-All (set ∷ sets))
          | inr t ↦ let bad : ⊥ = ground (arith, t, e) in elim bad [ ]
        ]

    lower_loop-All :
        (data_ : Data) (p : ℕ) (sets : List RuleRouterSet)
        → lower_loop circuit_breaker_sets labels data_ ≡ some (p, sets)
        → All P sets
    unfolding lower_loop get_healthy_subset
    lower_loop-All [] p sets e = cc
    lower_loop-All ((q, here) ∷ data_) p sets e =
        elim (Bool-cases (get_healthy_subset circuit_breaker_sets labels here).0) [
          | inl t ↦
              let found = (get_healthy_subset circuit_breaker_sets labels here).1 in
              let h : some (q, found) ≡ some (p, sets) = rw (lower_loop, t) at e in
              let same : found ≡ sets = ground (arith, h) in
              rw (sym same) (get_healthy_subset-All here t)
          | inr t ↦ lower_loop-All data_ p sets (rw (lower_loop, t) at e)
        ]

    lowered :
        (p : ℕ) (sets kept : List RuleRouterSet) (data_ : Data)
        → some_takes_over circuit_breaker_sets labels sets ≡ false
        → All (λ set. set.isolated_ ≡ false) kept
        → Served ((p, sets) ∷ data_) (elim (lower_loop circuit_breaker_sets labels data_) [
          | some replaced ↦ replaced ∷ []
          | none ↦ (p, kept) ∷ data_
        ])
    lowered p sets kept data_ h a =
        elim (Option-cases (lower_loop circuit_breaker_sets labels data_)) [
          | inl e ↦ rw e (
              inr (ground (arith, h, lower_loop-takes_over circuit_breaker_sets labels data_ e), a))
          | inr ((q, found), e) ↦ rw e (inl (lower_loop-All data_ q found e))
        ]

    serve_kept-Served :
        (p : ℕ) (sets : List RuleRouterSet) (data_ : Data) (kept : Kept)
        → All P kept.cluster_halfopen
        → (kept.found ≡ true) × All P kept.cluster
          ⊎ ((kept.found ≡ false)
              × ((some_takes_over circuit_breaker_sets labels sets ≡ false)
                  × All (λ set. set.isolated_ ≡ false) kept.cluster))
        → Served ((p, sets) ∷ data_) (serve_kept circuit_breaker_sets labels rates p kept data_)
    unfolding serve_kept
    serve_kept-Served p sets data_ kept h (inl (f, a)) =
        rw (serve_kept, f)
          (inl (
            share_loop-All circuit_breaker_sets labels rates P weight_free taken_ok
              kept.cluster_halfopen ((p, kept.cluster) ∷ data_) h a))
    serve_kept-Served p sets data_ kept h (inr (f, (n, a))) =
        rw (serve_kept, f) (lowered p sets kept.cluster data_ n a)

    -- CalculateSubset by what GetHealthyAndHalfOpenSubSet keeps.
    by_kept :
        (p : ℕ) (sets : List RuleRouterSet) (data_ : Data) (kept : Kept)
        → get_healthy_and_half_open_subset circuit_breaker_sets labels sets ≡ kept
        → calculate_subset circuit_breaker_sets labels rates ((p, sets) ∷ data_)
          ≡ serve_kept circuit_breaker_sets labels rates p kept data_
    unfolding calculate_subset
    by_kept p sets data_ kept e = ap (λ k. serve_kept circuit_breaker_sets labels rates p k data_) e

    -- What it keeps of sets, with the facts about them.
    abbrev KeptOf : List RuleRouterSet → Type 0
    KeptOf sets =
        (kept : Kept) × ((get_healthy_and_half_open_subset circuit_breaker_sets labels sets ≡ kept)
          × (All P kept.cluster_halfopen
              × ((kept.found ≡ true) × All P kept.cluster
                  ⊎ ((kept.found ≡ false)
                      × ((some_takes_over circuit_breaker_sets labels sets ≡ false)
                          × All (λ set. set.isolated_ ≡ false) kept.cluster)))))

    kept_of : (sets : List RuleRouterSet) → KeptOf sets
    unfolding get_healthy_and_half_open_subset
    kept_of [] = (
      record { found = false; cluster = []; cluster_halfopen = [] },
      (refl, (tt, inr (refl, (refl, tt)))),
    )
    kept_of (set ∷ sets) =
        let s = sort_sets circuit_breaker_sets labels (set ∷ sets) in
        let a = sort_sets-All (set ∷ sets) in
        elim (Bool-cases (not (is_empty s.cluster_healthy) || not (is_empty s.cluster_halfopen))) [
          | inl t ↦ (
            record {
              found = true;
              cluster = s.cluster_healthy;
              cluster_halfopen = s.cluster_halfopen;
            },
            (rw (get_healthy_and_half_open_subset, t) refl, (a.1.0, inl (refl, a.0))),
          )
          | inr t ↦ (
            record {
              found = false;
              cluster = s.cluster_unhealthy;
              cluster_halfopen = s.cluster_halfopen;
            },
            (
              rw (get_healthy_and_half_open_subset, t) refl,
              (
                a.1.0,
                inr (
                  refl,
                  (
                    sort_sets-takes_over circuit_breaker_sets labels (set ∷ sets)
                        (ground (arith, t)),
                    a.1.1,
                  ),
                ),
              ),
            ),
          )
        ]

    none_served : calculate_subset circuit_breaker_sets labels rates [] ≡ []
    unfolding calculate_subset
    none_served = refl

    calculate_subset-Served :
        (data_ : Data) → Served data_ (calculate_subset circuit_breaker_sets labels rates data_)
    calculate_subset-Served [] = rw none_served (inl tt)
    calculate_subset-Served ((p, sets) ∷ data_) =
        let k = kept_of sets in
        rw (by_kept p sets data_ k.0 k.1.0) (serve_kept-Served p sets data_ k.0 k.1.1.0 k.1.1.1)

  module _ (rates : Rates F) (data_ : Data) where
    -- No set that the rules isolate is among those that CalculateSubset leaves to serve.
    pub calculate_subset-isolated :
        All
          (λ set. set.isolated_ ≡ false)
          (served (calculate_subset circuit_breaker_sets labels rates data_))
    calculate_subset-isolated =
        elim (calculate_subset-Served rates (λ set. set.isolated_ ≡ false) (λ set w i. i)
          (λ set i n. i) data_) [ inl a ↦ a | inr (n, a) ↦ a ]

    -- When some set of any priority is not isolated and has no breaker, or a closed one, then none of
    -- the sets that CalculateSubset leaves to serve has an open breaker.
    pub calculate_subset_avoids_open :
        any_takes_over circuit_breaker_sets labels data_ ≡ true
        → All
            (λ set. status circuit_breaker_sets labels set ≢ opened)
            (served (calculate_subset circuit_breaker_sets labels rates data_))
    unfolding set_status get_set_breaker_info
    calculate_subset_avoids_open t =
        elim (calculate_subset-Served rates (λ set. status circuit_breaker_sets labels set ≢ opened)
          (λ set w n. n) (λ set i n. n) data_) [
            | inl a ↦ a
            | inr (n, a) ↦ let bad : ⊥ = ground (arith, n, t) in elim bad [ ]
          ]
