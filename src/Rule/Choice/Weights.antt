-- ===== src/Rule/Choice/Weights.antt =====
-- The weights by which polaris/plugin/service_router/rule_router.cpp chooses among sets.
use polaris_cpp.Base.{
  ℕ, ◌+◌, ◌%◌, ◌^◌, ◌≤◌, ◌<◌, Bool, false, Option, none, some, List, [], ◌∷◌, ◌++◌, if◌then◌else◌,
  ltb, leb, ◌≡◌, refl, ap, ◌∙◌, arith, inl, inr, Bool-cases, nat_key, ℕ_discrete, lookup, put,
  add32, All, All-append,
}
use native.Mathlib.Nat.{mod-eq_of_lt}
use mathlib.Core.List.{append-nil, append_assoc}
use polaris_cpp.LoadBalancer.Counting.{count_from, count_split, count_same, count_constant}
use polaris_cpp.Rule.Destination.{RuleRouterSet}
use polaris_cpp.Rule.Choice.{
  InstancesSet, instances_set, insert_new, weight_in, weigh_loop, first_above, select_set,
}

-- A key above all that stand in a map goes to its end.
insert_last :
    (k : ℕ) (v : InstancesSet) (m : List (ℕ × InstancesSet))
    → All (λ e. e.0 < k) m
    → (lookup k m ≡ none) × (put ltb k v m ≡ m ++ (k, v) ∷ [])
unfolding lookup put ℕ_discrete
insert_last k v [] a = (refl, refl)
insert_last k v ((j, w) ∷ m) (h, a) =
    let r = insert_last k v m a in (ground (arith, r.0, h), ground (arith, r.1, h))

insert_new-append :
    (k : ℕ) (v : InstancesSet) (m : List (ℕ × InstancesSet))
    → All (λ e. e.0 < k) m
    → insert_new k v m ≡ m ++ (k, v) ∷ []
unfolding insert_new
insert_new-append k v m a = let r = insert_last k v m a in rw (insert_new, r.0) r.1

All-mono :
    (a b : ℕ) (m : List (ℕ × InstancesSet)) → a ≤ b → All (λ e. e.0 ≤ a) m → All (λ e. e.0 ≤ b) m
All-mono a b [] le h = tt
All-mono a b (e ∷ m) le (x, h) = (omega (arith, x, le), All-mono a b m le h)

All-below :
    (a b : ℕ) (m : List (ℕ × InstancesSet)) → a < b → All (λ e. e.0 ≤ a) m → All (λ e. e.0 < b) m
All-below a b [] lt h = tt
All-below a b (e ∷ m) lt (x, h) = (omega (arith, x, lt), All-below a b m lt h)

module _ (sum_weight : ℕ) where
  -- The sum of the sets' weights.
  abbrev pub total : List RuleRouterSet → ℕ
  total [] = 0
  total (set ∷ sets) = weight_in sum_weight set + total sets

  -- The sets with a weight, each with the sum of the weights up to it.
  abbrev pub cumulative : ℕ → List RuleRouterSet → List (ℕ × InstancesSet)
  cumulative weight [] = []
  cumulative weight (set ∷ sets) =
      let w = weight_in sum_weight set in
      if leb w 0
      then cumulative weight sets
      else (weight + w, instances_set set) ∷ cumulative (weight + w) sets

  pub weigh_loop_is :
      (sets : List RuleRouterSet) (weight : ℕ) (subsets : List (ℕ × InstancesSet))
      → weight + total sets < 2 ^ 32
      → All (λ e. e.0 ≤ weight) subsets
      → weigh_loop sum_weight sets weight subsets
        ≡ (weight + total sets, subsets ++ cumulative weight sets)
  unfolding weigh_loop
  weigh_loop_is [] weight subsets fits a =
      let z : weight ≡ weight + 0 = omega arith in
      rw (append-nil subsets) (ap (λ n. (n, subsets)) z)
  weigh_loop_is (set ∷ sets) weight subsets fits a =
      let w = weight_in sum_weight set in
      elim (Bool-cases (leb w 0)) [
        | inl e ↦
            let z : weight + total sets ≡ weight + (w + total sets) = ground (arith, e) in
            rw (weigh_loop, e)
              (weigh_loop_is sets weight subsets (omega (arith, fits, z)) a
                ∙ ap (λ n. (n, subsets ++ cumulative weight sets)) z)
        | inr e ↦
            let pos : 0 < w = ground (arith, e) in
            let m : add32 weight w ≡ weight + w = mod-eq_of_lt (omega (arith, fits)) in
            let v = instances_set set in
            let i : insert_new (weight + w) v subsets ≡ subsets ++ (weight + w, v) ∷ [] =
              insert_new-append (weight + w) v subsets
                (All-below weight (weight + w) subsets (omega (arith, pos)) a) in
            let all =
              All-append (λ e. e.0 ≤ weight + w) subsets ((weight + w, v) ∷ [])
                (All-mono weight (weight + w) subsets (omega arith) a) (omega arith, tt) in
            let x : ℕ × InstancesSet = (weight + w, v) in
            let n : weight + w + total sets ≡ weight + (w + total sets) = omega arith in
            rw (weigh_loop, e)
              (ap (λ k. weigh_loop sum_weight sets k (insert_new k v subsets)) m
                ∙ ap (λ q. weigh_loop sum_weight sets (weight + w) q) i
                ∙ weigh_loop_is sets (weight + w) (subsets ++ x ∷ []) (omega (arith, fits, n)) all
                ∙ ap (λ k. (k, (subsets ++ x ∷ []) ++ cumulative (weight + w) sets)) n
                ∙ ap (λ q. (weight + (w + total sets), q))
                    (append_assoc subsets (x ∷ []) (cumulative (weight + w) sets)))
      ]

  -- The weight of the sets that pass a test.
  abbrev pub share : (InstancesSet → Bool) → List RuleRouterSet → ℕ
  share test [] = 0
  share test (set ∷ sets) =
      (if test (instances_set set) then weight_in sum_weight set else 0) + share test sets

  -- A choice passes a test where there is one.
  abbrev pub passes : (InstancesSet → Bool) → Option InstancesSet → Bool
  passes test none = false
  passes test (some s) = test s

  share_count :
      (test : InstancesSet → Bool) (weight : ℕ) (sets : List RuleRouterSet)
      → count_from (λ r. passes test (first_above (cumulative weight sets) r)) weight (total sets)
        ≡ share test sets
  unfolding first_above
  share_count test weight [] = refl
  share_count test weight (set ∷ sets) =
      let w = weight_in sum_weight set in
      elim (Bool-cases (leb w 0)) [
        | inl e ↦
            let now : ℕ → Bool = λ r. passes test (first_above (cumulative weight sets) r) in
            let n : w + total sets ≡ total sets = ground (arith, e) in
            let none_here : (if test (instances_set set) then w else 0) ≡ 0 = ground (arith, e) in
            rw e (
              ap (λ k. count_from now weight k) n
              ∙ share_count test weight sets
              ∙ omega (arith, none_here))
        | inr e ↦
            let all : ℕ → Bool = λ r.
              passes test
                (first_above ((weight + w, instances_set set) ∷ cumulative (weight + w) sets) r) in
            let rest : ℕ → Bool = λ r. passes test (first_above (cumulative (weight + w) sets) r) in
            let here : count_from all weight w ≡ (if test (instances_set set) then w else 0) =
              count_constant all (test (instances_set set)) weight w
                (λ r lo hi. ground (arith, hi)) in
            let there : count_from all (weight + w) (total sets)
                ≡ count_from rest (weight + w) (total sets) =
              count_same all rest (weight + w) (total sets) (λ r lo hi. ground (arith, lo)) in
            rw e (
              count_split all weight w (total sets)
              ∙ omega (arith, here, there, share_count test (weight + w) sets))
      ]

  -- As long as the weights add up to less than 2 ^ 32, of the random values below their sum exactly
  -- as many choose a set that passes a test, whatever the test, as such sets have weight together,
  -- where every set has weight 100 if none has any.
  pub select_share :
      (test : InstancesSet → Bool) (sets : List RuleRouterSet)
      → total sets < 2 ^ 32
      → count_from
          (λ r.
            passes test (
              select_set (weigh_loop sum_weight sets 0 []).1 (weigh_loop sum_weight sets 0 []).0 r))
          0
          (weigh_loop sum_weight sets 0 []).0
        ≡ share test sets
  unfolding select_set
  select_share test sets fits =
      let z : 0 + total sets ≡ total sets = omega arith in
      let is : weigh_loop sum_weight sets 0 [] ≡ (total sets, cumulative 0 sets) =
        weigh_loop_is sets 0 [] (omega (arith, fits)) tt ∙ ap (λ n. (n, cumulative 0 sets)) z in
      rw is (
        count_same (λ r. passes test (first_above (cumulative 0 sets) (r % total sets)))
          (λ r. passes test (first_above (cumulative 0 sets) r)) 0 (total sets)
          (λ r lo hi.
            ap (λ k. passes test (first_above (cumulative 0 sets) k))
              (mod-eq_of_lt (omega (arith, hi))))
        ∙ share_count test 0 sets)
