-- ===== src/Rule/Choice/Recovery.antt =====
-- That the choice of polaris/plugin/service_router/rule_router.cpp ends with instances.
use polaris_cpp.Base.{
  ℕ, ◌+◌, ◌%◌, ◌^◌, ◌≤◌, ◌<◌, Bool, true, false, Option, none, some, List, [], ◌∷◌, ◌++◌, length,
  not, ltb, leb, ◌==◌, ◌≡◌, ◌≢◌, refl, sym, ap, ◌∙◌, arith, inl, inr, Bool-cases, All, add32,
  length-append,
}
use native.Mathlib.Nat.{mod-lt}
use polaris_cpp.Router.Instances.{is_empty}
use polaris_cpp.Rule.Destination.{RuleRouterSet}
use polaris_cpp.Rule.RouteRule.{Data}
use polaris_cpp.Rule.Cluster.Served.{served}
use polaris_cpp.Rule.Choice.{
  RouteResult, InstancesSet, RuleRouterCacheValue, Routed, routed, instances_set, recovered, enters,
  result_round, calculate_route_result, weight_in, weigh_loop, first_above, select_set, use_value,
}
use polaris_cpp.Rule.Choice.Weights.{total, cumulative, passes, weigh_loop_is}

-- The instances of a cluster's sets.
abbrev pub instances_of : List RuleRouterSet → ℕ
instances_of [] = 0
instances_of (set ∷ sets) = length set.healthy_ + length set.unhealthy_ + instances_of sets

abbrev pub some_healthy : InstancesSet → Bool
some_healthy s = not (is_empty s.instances_)

-- The weights as the sets hold them.
abbrev weights : List RuleRouterSet → ℕ
weights [] = 0
weights (set ∷ sets) = set.weight_ + weights sets

abbrev Alive : RuleRouterSet → Type 0
Alive set = some_healthy (instances_set set) ≡ true

is_empty_none : {A : Type 0} (xs : List A) → 0 < length xs → is_empty xs ≡ false
is_empty_none [] h = ground (arith, h)
is_empty_none (x ∷ xs) h = refl

module _ (enough : ℕ → ℕ → Bool) where
  result_round-Alive :
      (downgrade : Bool) (sets : List RuleRouterSet) (sum_weight : ℕ)
      → All Alive (result_round enough downgrade sets sum_weight).0
  unfolding result_round
  result_round-Alive downgrade [] sum_weight = tt
  result_round-Alive downgrade (set ∷ sets) sum_weight =
      elim (Bool-cases (enters enough downgrade set)) [
        | inl e ↦
            rw (result_round, e)
              (
                ground (arith, e),
                result_round-Alive downgrade sets
                    (add32 sum_weight (recovered enough downgrade set).weight_),
              )
        | inr e ↦ rw (result_round, e) (result_round-Alive downgrade sets sum_weight)
      ]

  -- A round whose sets have no weight adds nothing.
  result_round_weightless :
      (downgrade : Bool) (sets : List RuleRouterSet)
      → weights (result_round enough downgrade sets 0).0 ≡ 0
      → (result_round enough downgrade sets 0).1 ≡ 0
  unfolding result_round
  result_round_weightless downgrade [] z = refl
  result_round_weightless downgrade (set ∷ sets) z =
      let w = (recovered enough downgrade set).weight_ in
      elim (Bool-cases (enters enough downgrade set)) [
        | inr e ↦
            rw (result_round, e)
              (result_round_weightless downgrade sets (rw (result_round, e) at z))
        | inl e ↦
            let rest : ℕ → List RuleRouterSet × ℕ = result_round enough downgrade sets in
            let all : w + weights (rest (add32 0 w)).0 ≡ 0 = rw (result_round, e) at z in
            let start : add32 0 w ≡ 0 = let w0 : w ≡ 0 = omega (arith, all) in rw w0 refl in
            let z' : weights (rest 0).0 ≡ 0 =
              ap (λ n. weights (rest n).0) (sym start) ∙ omega (arith, all) in
            rw (result_round, e)
              (ap (λ n. (rest n).1) start ∙ result_round_weightless downgrade sets z')
      ]

  module _ (full : (n : ℕ) → 0 < n → enough n n ≡ true) where
    enters_recovered :
        (set : RuleRouterSet)
        → 0 < length set.healthy_ + length set.unhealthy_
        → enters enough true set ≡ true
    enters_recovered set pos =
        let n = length-append set.healthy_ set.unhealthy_ in
        let size = length set.healthy_ + length set.unhealthy_ in
        let e : is_empty (set.healthy_ ++ set.unhealthy_) ≡ false =
          is_empty_none (set.healthy_ ++ set.unhealthy_) (omega (arith, n, pos)) in
        rw (e, n, full size pos) refl

    second_round :
        (sets : List RuleRouterSet) (sum_weight : ℕ)
        → 0 < instances_of sets
        → is_empty (result_round enough true sets sum_weight).0 ≡ false
    unfolding result_round
    second_round [] sum_weight pos = ground (arith, pos)
    second_round (set ∷ sets) sum_weight pos = elim (Bool-cases (enters enough true set)) [
      | inl e ↦ rw (result_round, e) refl
      | inr e ↦
          rw (result_round, e)
            (let none_here : ¬ (0 < length set.healthy_ + length set.unhealthy_) =
                λ q. let c = enters_recovered set q in cc in
              second_round sets sum_weight (ground (arith, none_here, pos)))
    ]

no_weights : (sets : List RuleRouterSet) → is_empty sets ≡ true → weights sets ≡ 0
no_weights [] e = refl
no_weights (set ∷ sets) e = cc

module _ (sum_weight : ℕ) where
  total_weights :
      (sets : List RuleRouterSet) → leb sum_weight 0 ≡ false → total sum_weight sets ≡ weights sets
  total_weights [] e = refl
  total_weights (set ∷ sets) e = rw (e, total_weights sets e) refl

  total_default :
      (sets : List RuleRouterSet)
      → is_empty sets ≡ false
      → leb sum_weight 0 ≡ true
      → 0 < total sum_weight sets
  total_default [] n e = cc
  total_default (set ∷ sets) n e = rw e (omega arith)

  pick-Alive :
      (sets : List RuleRouterSet) (weight r : ℕ)
      → All Alive sets
      → r < weight + total sum_weight sets
      → weight ≤ r
      → passes sum_weight some_healthy (first_above (cumulative sum_weight weight sets) r) ≡ true
  unfolding first_above
  pick-Alive [] weight r a lt le = ground (arith, lt, le)
  pick-Alive (set ∷ sets) weight r (p, a) lt le =
      let w = weight_in sum_weight set in
      elim (Bool-cases (leb w 0)) [
        | inl e ↦ rw e (pick-Alive sets weight r a (ground (arith, e, lt)) le)
        | inr e ↦ elim (Bool-cases (ltb r (weight + w))) [
          | inl f ↦ rw (e, first_above, f) p
          | inr f ↦
              rw (e, first_above, f)
                (pick-Alive sets (weight + w) r a (omega (arith, lt)) (ground (arith, f)))
        ]
      ]

-- The value of the cache for the sets that CalculateSubset left.
abbrev pub value_of : RouteResult → RuleRouterCacheValue
value_of r = record {
  is_redirect_ = false;
  redirect_service_ = record { namespace_ = []; name_ = [] };
  subsets_ = (weigh_loop r.sum_weight r.result 0 []).1;
  subset_sum_weight_ = (weigh_loop r.sum_weight r.result 0 []).0;
}

-- A request gets instances.
abbrev pub GetsInstances : Routed → Type 0
GetsInstances routing = (s : InstancesSet) × ((routing ≡ routed (some s)) × (some_healthy s ≡ true))

some_passes :
    (sum_weight : ℕ) (o : Option InstancesSet)
    → passes sum_weight some_healthy o ≡ true
    → GetsInstances (routed o)
some_passes sum_weight none e = cc
some_passes sum_weight (some s) e = (s, (refl, e))

use-Alive :
    (r : RouteResult) (random : ℕ)
    → All Alive r.result
    → 0 < total r.sum_weight r.result
    → total r.sum_weight r.result < 2 ^ 32
    → GetsInstances (use_value (value_of r) random)
unfolding use_value select_set
use-Alive r random a pos fits =
    let t = total r.sum_weight r.result in
    let z : 0 + t ≡ t = omega arith in
    let is : weigh_loop r.sum_weight r.result 0 [] ≡ (t, cumulative r.sum_weight 0 r.result) =
      weigh_loop_is r.sum_weight r.result 0 [] (omega (arith, fits)) tt
      ∙ ap (λ n. (n, cumulative r.sum_weight 0 r.result)) z in
    let not_zero : (t == 0) ≡ false = ground (arith, pos) in
    rw (use_value, is, not_zero)
      (some_passes r.sum_weight (first_above (cumulative r.sum_weight 0 r.result) (random % t)) (
        pick-Alive r.sum_weight r.result 0 (random % t) a (omega (arith, mod-lt random pos))
          (omega arith)))

module _ (enough : ℕ → ℕ → Bool) where
  -- A round that finds sets leaves a sum to draw from.
  round_total :
      (downgrade : Bool) (sets : List RuleRouterSet)
      → is_empty (result_round enough downgrade sets 0).0 ≡ false
      → 0 < total (result_round enough downgrade sets 0).1 (result_round enough downgrade sets 0).0
  round_total downgrade sets n =
      let r = result_round enough downgrade sets 0 in
      elim (Bool-cases (leb r.1 0)) [
        | inl e ↦ total_default r.1 r.0 n e
        | inr e ↦
            let w : weights r.0 ≢ 0 = λ z.
              let y = result_round_weightless enough downgrade sets z in ground (arith, y, e) in
            let t = total_weights r.1 r.0 e in ground (arith, w, t)
      ]

  empty_round :
      (downgrade : Bool) (sets : List RuleRouterSet)
      → is_empty (result_round enough downgrade sets 0).0 ≡ true
      → (result_round enough downgrade sets 0).1 ≡ 0
  empty_round downgrade sets e =
      result_round_weightless enough downgrade sets
        (no_weights (result_round enough downgrade sets 0).0 e)

  -- With the recovery of unhealthy instances enabled, and a share of healthy instances that all of
  -- them always reach, a request gets instances, whatever the random value is, as soon as a set of
  -- the highest priority has an instance, healthy or not, where the weights that the choice draws
  -- from add up to less than 2 ^ 32.
  pub route_never_empty :
      (full : (n : ℕ) → 0 < n → enough n n ≡ true) (data_ : Data) (random : ℕ)
      → 0 < instances_of (served data_)
      → total
          (calculate_route_result enough true data_).sum_weight
          (calculate_route_result enough true data_).result
        < 2 ^ 32
      → GetsInstances (use_value (value_of (calculate_route_result enough true data_)) random)
  unfolding calculate_route_result
  route_never_empty full [] random pos fits = ground (arith, pos)
  route_never_empty full ((p, sets) ∷ data_) random pos fits =
      let first = result_round enough false sets 0 in
      let result : RouteResult = calculate_route_result enough true ((p, sets) ∷ data_) in
      elim (Bool-cases (not (is_empty first.0))) [
        | inl e ↦
            let is : result ≡ record { result = first.0; sum_weight = first.1; downgrade = false } =
              rw (calculate_route_result, e) refl in
            rw is (
              use-Alive (record { result = first.0; sum_weight = first.1; downgrade = false })
                random (result_round-Alive enough false sets 0)
                (round_total false sets (ground (arith, e))) (rw is at fits))
        | inr e ↦
            let second = result_round enough true sets 0 in
            let z : first.1 ≡ 0 = empty_round false sets (ground (arith, e)) in
            let is : result
                ≡ record { result = second.0; sum_weight = second.1; downgrade = true } =
              rw (calculate_route_result, e, z) refl in
            rw is (
              use-Alive (record { result = second.0; sum_weight = second.1; downgrade = true })
                random (result_round-Alive enough true sets 0)
                (round_total true sets (second_round enough full sets 0 pos)) (rw is at fits))
      ]
