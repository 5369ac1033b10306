-- ===== src/LoadBalancer/WeightedRandom/Choice.antt =====
-- What ChooseInstance answers, over all random values.
use polaris_cpp.Base.{
  ℕ, ◌+◌, ◌%◌, ◌^◌, ◌≤◌, ◌<◌, true, false, none, List, [], ◌∷◌, lt_int, le_int, ◌≡◌, ◌≢◌, refl, ap,
  ◌∙◌, arith, inl, inr, Bool-cases,
}
use native.Mathlib.Nat.{mod-lt, mod-eq_of_lt}
use polaris_cpp.LoadBalancer.Counting.{count_from, count_same}
use polaris_cpp.LoadBalancer.WeightedRandom.{
  RandomLbCacheValue, build_value, upper_bound, return_ok, choose_instance,
}
use polaris_cpp.LoadBalancer.WeightedRandom.Shares.{
  is_instance, cumulative, total, share, usable, normal, sharing, share_count, build_value-sharing,
}

module _ (weight : ℕ → ℕ) where
  upper_bound_some :
      (sum r : ℕ) (is : List ℕ)
      → sum ≤ r
      → sum + total weight is < 2 ^ 31
      → r < sum + total weight is
      → upper_bound (cumulative weight sum is) r ≢ none
  unfolding upper_bound
  upper_bound_some sum r [] low small lt e = ground (arith, low, lt)
  upper_bound_some sum r (i ∷ is) low small lt e = elim (Bool-cases (lt_int r (sum + weight i))) [
    | inl here ↦ ground (arith, rw here at e)
    | inr on ↦
        upper_bound_some (sum + weight i) r is (ground (arith, on, small, lt))
          (omega (arith, small)) (omega (arith, lt)) (rw on at e)
  ]

  module _ (instances half_open : List ℕ)
      (normal_fits : total weight (normal weight instances half_open) < 2 ^ 31)
      (half_open_fits : total weight (usable weight (λ i. true) half_open) < 2 ^ 31) where
    abbrev value : RandomLbCacheValue
    value = build_value weight instances half_open

    abbrev shared : List ℕ
    shared = sharing weight instances half_open

    value_is : value ≡ record {
      half_open_instances_ = half_open;
      sum_weight_ = total weight shared;
      weight_instances_ = cumulative weight 0 shared;
    }
    value_is = build_value-sharing weight instances half_open normal_fits half_open_fits

    shared_fits : total weight shared < 2 ^ 31
    shared_fits = ground (arith, normal_fits, half_open_fits)

    choice_is :
        (r : ℕ)
        → 0 < total weight shared
        → choose_instance value true none r
          ≡ (return_ok, upper_bound (cumulative weight 0 shared) (r % total weight shared))
    unfolding choose_instance
    choice_is r pos =
        let e : le_int (total weight shared) 0 ≡ false = ground (arith, pos, shared_fits) in
        rw (value_is, e) refl

    -- As long as the weights add up to an `int`, of the values below the sum of the weights exactly
    -- as many choose an instance as it has weight, where the normal instances of positive weight
    -- take part, or the half-open ones if there is none.
    pub random_share :
        (i : ℕ)
        → count_from (λ r. is_instance i (choose_instance value true none r).1) 0 value.sum_weight_
          ≡ share weight i shared
    random_share i =
        let e : value.sum_weight_ ≡ total weight shared = ap (λ v. v.sum_weight_) value_is in
        ap (λ n. count_from (λ r. is_instance i (choose_instance value true none r).1) 0 n) e
        ∙ (count_same (λ r. is_instance i (choose_instance value true none r).1)
              (λ r. is_instance i (upper_bound (cumulative weight 0 shared) r)) 0
              (total weight shared)
              (λ r lo hi.
                let below : r < total weight shared = omega (arith, hi) in
                rw (choice_is r (omega (arith, below)), mod-eq_of_lt below) refl)
            ∙ share_count weight i 0 shared (omega (arith, shared_fits)))

    -- Whatever the random value is, an instance is chosen as long as one takes part.
    pub random_chooses :
        (r : ℕ)
        → 0 < total weight shared
        → ((choose_instance value true none r).0 ≡ return_ok)
          × ((choose_instance value true none r).1 ≢ none)
    random_chooses r pos = rw (choice_is r pos) (
      refl,
      upper_bound_some 0 (r % total weight shared) shared (omega arith) (omega (arith, shared_fits))
          (omega (arith, mod-lt r pos)),
    )
