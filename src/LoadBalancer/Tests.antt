-- ===== src/LoadBalancer/Tests.antt =====
-- The theorems on the load balancers at concrete inputs.
use polaris_cpp.Base.{
  ℕ, ◌^◌, ◌-◌, none, if◌then◌else◌, ◌==◌, ◌+◌, ◌*◌, ◌%◌, ◌≡◌, refl, true, false, some, List, [],
  ◌∷◌, arith,
}
use polaris_cpp.LoadBalancer.RingHash.{Ring, Instance, select, position, lower_bound}
use polaris_cpp.LoadBalancer.Counting.{count_from}
use polaris_cpp.LoadBalancer.LocalityAware
use polaris_cpp.LoadBalancer.LocalityAware.{
  Selector, no_instances, add, change_weight, update_loop, descend,
}
use polaris_cpp.LoadBalancer.LocalityAware.Descent.{ends_at, weight_below}
use polaris_cpp.LoadBalancer.LocalityAware.Ends.{Down, Up, tree_loops_end}
use polaris_cpp.LoadBalancer.LocalityAware.Selection.{
  Reached, empty, added, changed, reached-IsValid, selection_share,
}
use polaris_cpp.LoadBalancer.WeightedRandom.{build_value, count, choose_instance}
use polaris_cpp.LoadBalancer.WeightedRandom.Shares.{is_instance}
use polaris_cpp.LoadBalancer.WeightedRandom.Choice.{random_share}
use polaris_cpp.LoadBalancer.CircularQueue.{CircularQueue}
use polaris_cpp.LoadBalancer.CircularQueue.Refinement.{view, contents, IsValid}
use polaris_cpp.LoadBalancer.CircularQueue.History.{run, run-view, pushes, elim_pushes, pops}

-- Three places, of which the last and the first are taken.
abbrev ring : CircularQueue ℕ
ring = record { count = 2; cap = 3; start = 2; items = λ i. i + 10 }

ring-IsValid : IsValid ring
ring-IsValid = record { start = omega arith; count = omega arith; small = omega arith }

run-view_example :
    (view (run ring (pushes 7 ∷ elim_pushes 8 ∷ pops ∷ [])) ≡ 7 ∷ 8 ∷ [])
    × IsValid (run ring (pushes 7 ∷ elim_pushes 8 ∷ pops ∷ []))
unfolding view contents
run-view_example = run-view (pushes 7 ∷ elim_pushes 8 ∷ pops ∷ []) ring ring-IsValid

-- Points of three instances, and one that is to leave.
abbrev points : Ring
points =
    record { hash_val = 10; index = 0 }
    ∷ record { hash_val = 20; index = 1 }
    ∷ record { hash_val = 30; index = 2 }
    ∷ []

goes_to_third : select points 25 ≡ some 2
unfolding select position lower_bound
goes_to_third = refl

-- Two instances with one and two virtual nodes, and one that is half-open.
abbrev three : List (Instance ℕ)
three =
    record { id = 5; weight = 1; half_open = false }
    ∷ record { id = 6; weight = 1; half_open = true }
    ∷ record { id = 7; weight = 2; half_open = false }
    ∷ []

-- The strings are numbers, and the two virtual nodes of instance 7 collide.
abbrev number_hash : ℕ → ℕ
number_hash s = s % 100

abbrev number_name : ℕ → ℕ → ℕ
number_name id k = id + 100 * k

-- Instance 2 has no weight and instance 3 is half-open.
abbrev some_weight : ℕ → ℕ
some_weight i = if i == 2 then 0 else i * 10

random_share_example :
    count_from
      (λ r.
        is_instance 4
          (choose_instance (build_value some_weight (1 ∷ 2 ∷ 3 ∷ 4 ∷ []) (3 ∷ [])) true none r).1)
      0
      (build_value some_weight (1 ∷ 2 ∷ 3 ∷ 4 ∷ []) (3 ∷ [])).sum_weight_
    ≡ 40
unfolding count
random_share_example =
    random_share some_weight (1 ∷ 2 ∷ 3 ∷ 4 ∷ []) (3 ∷ []) (omega arith) (omega arith) 4

-- Three instances, of which the second has gained and the third has lost weight.
abbrev three_added : Selector
three_added = add (add (add no_instances))

abbrev one_changed : Selector
one_changed = change_weight 0 (2 ^ 64 - 1008680221) three_added

abbrev two_changed : Selector
two_changed = change_weight 1 (2 ^ 64 - 1008680211) one_changed

abbrev three_weights : Selector
three_weights = change_weight 2 (2 ^ 64 - 1008680201) two_changed

three_weights-Reached : Reached three_weights
unfolding add change_weight update_loop
three_weights-Reached = changed two_changed 2 (2 ^ 64 - 1008680201) (omega arith) (
    changed one_changed 1 (2 ^ 64 - 1008680211) (omega arith) (
      changed three_added 0 (2 ^ 64 - 1008680221) (omega arith)
        (added (add (add no_instances)) (added (add no_instances) (added no_instances empty)))))

three_weights_are :
    three_weights ≡ record { weights = 10 ∷ 20 ∷ 30 ∷ []; lefts = 20 ∷ 0 ∷ 0 ∷ []; total_ = 60 }
unfolding add change_weight update_loop
three_weights_are = refl

reached-IsValid_example : LocalityAware.Invariant.IsValid three_weights
reached-IsValid_example = reached-IsValid three_weights three_weights-Reached

selection_share_example :
    count_from (λ dice. ends_at 1 (descend 3 (10 ∷ 20 ∷ 30 ∷ []) (20 ∷ 0 ∷ 0 ∷ []) 0 dice)) 0 60
    ≡ 20
unfolding add change_weight update_loop weight_below
selection_share_example =
    selection_share three_weights 1 three_weights-Reached (omega arith) (omega arith)

tree_loops_end_example :
    Down
      (10 ∷ 20 ∷ 30 ∷ [])
      (5 ∷ 6 ∷ 7 ∷ [])
      0
      40
      (descend 3 (10 ∷ 20 ∷ 30 ∷ []) (5 ∷ 6 ∷ 7 ∷ []) 0 40)
    × Up 9 2 (5 ∷ 6 ∷ 7 ∷ []) (LocalityAware.update_parent_weights 9 2 (5 ∷ 6 ∷ 7 ∷ []))
tree_loops_end_example = tree_loops_end 9 2 40 (10 ∷ 20 ∷ 30 ∷ []) (5 ∷ 6 ∷ 7 ∷ []) (omega arith)
