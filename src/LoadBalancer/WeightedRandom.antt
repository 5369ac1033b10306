-- ===== src/LoadBalancer/WeightedRandom.antt =====
-- polaris/plugin/load_balancer/weighted_random.{h,cpp}: RandomLoadBalancer. An Instance* is its
-- address, and a weight is a pattern of `int`.
pub mod Shares
pub mod Choice
use polaris_cpp.Base.{
  ℕ, ◌+◌, ◌%◌, Bool, true, false, Option, none, some, List, [], ◌∷◌, ◌++◌, ◌==◌, ltb, if◌then◌else◌,
  not, ◌&&◌, add32, lt_int, le_int,
}

pub record WeightInstance : Type 0 where
  pub weight_ : ℕ
  pub instance_ : ℕ

pub record RandomLbCacheValue : Type 0 where
  pub half_open_instances_ : List ℕ
  pub sum_weight_ : ℕ
  pub weight_instances_ : List WeightInstance

-- `count` of the set of half-open instances.
unfoldable pub count : ℕ → List ℕ → Bool
count a [] = false
count a (b ∷ bs) = if a == b then true else count a bs

-- GetDynamicWeight or GetWeight.
abbrev pub weight_of : Bool → (ℕ → ℕ) → (ℕ → ℕ) → ℕ → ℕ
weight_of enable_dynamic_weight_ dynamic_weight weight i =
    if enable_dynamic_weight_ then dynamic_weight i else weight i

module _ (weight : ℕ → ℕ) where
  abbrev pub push_weighted : RandomLbCacheValue → ℕ → RandomLbCacheValue
  push_weighted v i = record v {
    sum_weight_ = add32 v.sum_weight_ (weight i);
    weight_instances_ =
        v.weight_instances_
        ++ record { weight_ = add32 v.sum_weight_ (weight i); instance_ = i } ∷ [];
  }

  -- The loop over the available instances.
  unfoldable pub normal_loop : RandomLbCacheValue → List ℕ → RandomLbCacheValue
  unfolding count
  normal_loop v [] = v
  normal_loop v (i ∷ is) =
      normal_loop
        (if not (count i v.half_open_instances_) && lt_int 0 (weight i)
          then push_weighted v i
          else v)
        is

  -- The loop over the half-open ones.
  unfoldable pub half_open_loop : RandomLbCacheValue → List ℕ → RandomLbCacheValue
  half_open_loop v [] = v
  half_open_loop v (i ∷ is) =
      half_open_loop (if lt_int 0 (weight i) then push_weighted v i else v) is

  -- The value that ChooseInstance puts into the cache.
  unfoldable pub build_value : List ℕ → List ℕ → RandomLbCacheValue
  unfolding normal_loop
  build_value instances half_open =
      let v =
        normal_loop
          (record { half_open_instances_ = half_open; sum_weight_ = 0; weight_instances_ = [] })
          instances in
      if v.sum_weight_ == 0 then half_open_loop v half_open else v

-- std::upper_bound: the first entry above the value.
unfoldable pub upper_bound : List WeightInstance → ℕ → Option ℕ
upper_bound [] value = none
upper_bound (w ∷ ws) value =
    let rest = upper_bound ws value in if lt_int value w.weight_ then some w.instance_ else rest

pub data ReturnCode : Type 0 where
  return_ok return_instance_not_found : ReturnCode

-- ChooseInstance after the cache: `half_open` is what TryChooseHalfOpenInstance found, and `random`
-- what rand_r returned, an `int` that is not negative.
unfoldable pub choose_instance : RandomLbCacheValue → Bool → Option ℕ → ℕ → ReturnCode × Option ℕ
choose_instance v ignore_half_open half_open random =
    let next = if ignore_half_open then none else half_open in
    elim next [
      | some i ↦ (return_ok, some i)
      | none ↦
          if le_int v.sum_weight_ 0
          then (return_instance_not_found, none)
          else (return_ok, upper_bound v.weight_instances_ (random % v.sum_weight_))
    ]
