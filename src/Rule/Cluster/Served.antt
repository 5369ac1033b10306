-- ===== src/Rule/Cluster/Served.antt =====
-- The sets that RuleRouterCluster::CalculateSubset of polaris/plugin/service_router/rule_router.cpp
-- leaves at the highest priority.
use polaris_cpp.Base.{
  ℕ, Bool, true, false, Option, none, some, List, [], ◌∷◌, ◌||◌, ◌≡◌, refl, inl, inr, Bool-cases,
  Option-cases, String, All, All-append,
}
use polaris_cpp.CircuitBreaker.Status.{CircuitBreakerStatus}
use polaris_cpp.Rule.Destination.{RuleRouterSet}
use polaris_cpp.Rule.RouteRule.{Data}
use polaris_cpp.Rule.Cluster.{
  Rates, SetCircuitBreakerUnhealthyInfo, set_status, get_set_breaker_info, takes_over,
  down_grade_in, down_grade_loop, get_down_grade_subset, push_highest, serve_half_open, share_loop,
}

-- The sets of the highest priority, from which the rest of the code chooses.
abbrev pub served : Data → List RuleRouterSet
served [] = []
served ((p, sets) ∷ data_) = sets

module _ {F : Type 0} (circuit_breaker_sets : List (String × SetCircuitBreakerUnhealthyInfo F))
    (labels : String) where
  abbrev pub status : RuleRouterSet → CircuitBreakerStatus
  status = set_status circuit_breaker_sets labels

  -- Some set of a cluster, or of any priority, takes over.
  abbrev pub some_takes_over : List RuleRouterSet → Bool
  some_takes_over [] = false
  some_takes_over (set ∷ sets) = takes_over circuit_breaker_sets labels set || some_takes_over sets

  abbrev pub any_takes_over : Data → Bool
  any_takes_over [] = false
  any_takes_over ((p, sets) ∷ data_) = some_takes_over sets || any_takes_over data_

  -- The set that is found, if any, takes over.
  abbrev Taken : {A : Type 0} → Option (RuleRouterSet × A) → Type 0
  Taken none = Unit {0}
  Taken (some (set, a)) = takes_over circuit_breaker_sets labels set ≡ true

  taken_map :
      {A B : Type 0} (f : A → B) (o : Option (RuleRouterSet × A))
      → Taken o
      → Taken {A = B} (elim o [ none ↦ none | some (s, a) ↦ some (s, f a) ])
  taken_map f none t = tt
  taken_map f (some (s, a)) t = t

  down_grade_in-Taken :
      (sets : List RuleRouterSet) → Taken (down_grade_in circuit_breaker_sets labels sets)
  unfolding down_grade_in
  down_grade_in-Taken [] = tt
  down_grade_in-Taken (s ∷ sets) = elim (Bool-cases (takes_over circuit_breaker_sets labels s)) [
    | inl e ↦ rw (down_grade_in, e) e
    | inr e ↦
        rw (down_grade_in, e)
          (taken_map (λ ss. s ∷ ss) (down_grade_in circuit_breaker_sets labels sets)
            (down_grade_in-Taken sets))
  ]

  down_grade_loop-Taken : (data_ : Data) → Taken (down_grade_loop circuit_breaker_sets labels data_)
  unfolding down_grade_loop
  down_grade_loop-Taken [] = tt
  down_grade_loop-Taken ((p, sets) ∷ data_) =
      let t = down_grade_in-Taken sets in
      elim (Option-cases (down_grade_in circuit_breaker_sets labels sets)) [
        | inr (found, e) ↦ rw (down_grade_loop, e) (rw e at t)
        | inl e ↦
            rw (down_grade_loop, e)
              (taken_map (λ d. (p, sets) ∷ d) (down_grade_loop circuit_breaker_sets labels data_)
                (down_grade_loop-Taken data_))
      ]

  -- GetDownGradeSubset finds none, or a set that takes over; the highest priority stays as it is.
  abbrev DownGraded : Data → Option (RuleRouterSet × Data) → Type 0
  DownGraded data_ none = Unit {0}
  DownGraded data_ (some (set, d)) =
      (takes_over circuit_breaker_sets labels set ≡ true) × (served d ≡ served data_)

  down_graded :
      (first : ℕ × List RuleRouterSet) (data_ : Data) (o : Option (RuleRouterSet × Data))
      → Taken o
      → DownGraded (first ∷ data_) (elim o [ none ↦ none | some (s, d) ↦ some (s, first ∷ d) ])
  down_graded (p, sets) data_ none t = tt
  down_graded (p, sets) data_ (some (s, d)) t = (t, refl)

  get_down_grade_subset-DownGraded :
      (data_ : Data) → DownGraded data_ (get_down_grade_subset circuit_breaker_sets labels data_)
  unfolding get_down_grade_subset
  get_down_grade_subset-DownGraded [] = tt
  get_down_grade_subset-DownGraded (first ∷ data_) =
      down_graded first data_ (down_grade_loop circuit_breaker_sets labels data_)
        (down_grade_loop-Taken data_)

  -- A property of sets that does not look at the weight.
  module _ (rates : Rates F) (P : RuleRouterSet → Type 0)
      (weight_free : (set : RuleRouterSet) (w : ℕ) → P set → P (record set { weight_ = w }))
      (taken : (set : RuleRouterSet)
        → takes_over circuit_breaker_sets labels set ≡ true
        → P set) where
    push_highest-All :
        (set : RuleRouterSet) (data_ : Data)
        → P set
        → All P (served data_)
        → All P (served (push_highest set data_))
    push_highest-All set [] p a = tt
    push_highest-All set ((q, sets) ∷ data_) p a = All-append P sets (set ∷ []) a (p, tt)

    serve_half_open-All :
        (set : RuleRouterSet) (data_ : Data)
        → P set
        → All P (served data_)
        → All P (served (serve_half_open circuit_breaker_sets labels rates set data_))
    unfolding serve_half_open
    serve_half_open-All set data_ p a =
        let g = get_down_grade_subset-DownGraded data_ in
        elim (Option-cases (get_down_grade_subset circuit_breaker_sets labels data_)) [
          | inl e ↦ rw (serve_half_open, e) (push_highest-All set data_ p a)
          | inr ((down, d), e) ↦
              let h : DownGraded data_ (some (down, d)) = rw e at g in
              let rate : F = elim (get_set_breaker_info circuit_breaker_sets labels set) [
                | none ↦ rates.one
                | some info ↦ info.half_open_release_percent
              ] in
              let own = rates.passed set.weight_ rate in
              let other = rates.held down.weight_ rate in
              rw (serve_half_open, e)
                (push_highest-All (record down { weight_ = other })
                  (push_highest (record set { weight_ = own }) d)
                  (weight_free down other (taken down h.0))
                  (push_highest-All (record set { weight_ = own }) d (weight_free set own p)
                    (rw h.1 a)))
        ]

    pub share_loop-All :
        (sets : List RuleRouterSet) (data_ : Data)
        → All P sets
        → All P (served data_)
        → All P (served (share_loop circuit_breaker_sets labels rates sets data_))
    unfolding share_loop
    share_loop-All [] data_ h a = a
    share_loop-All (set ∷ sets) data_ (p, h) a =
        share_loop-All sets (serve_half_open circuit_breaker_sets labels rates set data_) h
          (serve_half_open-All set data_ p a)
