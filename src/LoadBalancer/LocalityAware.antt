-- ===== src/LoadBalancer/LocalityAware.antt =====
-- polaris/plugin/load_balancer/locality_aware/locality_aware_selector.{h,cpp}: the weight tree of
-- LocalityAwareSelector, in one buffer. Node i has the children 2 i + 1 and 2 i + 2 in the vector;
-- `lefts` are the numbers that the nodes' `left` point to. Weights are patterns of int64_t.
pub mod Tree
pub mod Update
pub mod Descent
pub mod Invariant
pub mod Selection
pub mod Ends
use polaris_cpp.Base.{
  ℕ, zero, suc, ◌+◌, ◌-◌, ◌*◌, ◌/◌, ◌^◌, Bool, true, false, Option, none, some, List, length,
  get_elem?, set, ltb, ◌==◌, if◌then◌else◌, add64, sub64, lt_int64, [], ◌∷◌, ◌++◌,
}

-- An entry of a vector; the code reads none past the end.
abbrev pub at : List ℕ → ℕ → ℕ
at xs i = elim (get_elem? xs i) [ none ↦ 0 | some x ↦ x ]

-- The loop of UpdateParentWeights, with the index as fuel: a parent's index is smaller.
unfoldable pub update_loop : ℕ → ℕ → ℕ → List ℕ → List ℕ
update_loop zero diff index lefts = lefts
update_loop (suc fuel) diff index lefts =
    let parent_index : ℕ = (index - 1) / 2 in
    let next = update_loop fuel diff parent_index (
      if parent_index * 2 + 1 == index
      then set lefts parent_index (add64 (at lefts parent_index) diff)
      else lefts) in
    if index == 0 then lefts else next

abbrev pub update_parent_weights : ℕ → ℕ → List ℕ → List ℕ
update_parent_weights diff index lefts = update_loop index diff index lefts

pub record Found : Type 0 where
  pub index : ℕ
  pub offset : ℕ

-- The way down of SelectInstance from a node, `none` where it leaves the tree and draws again. The
-- size of the tree is fuel enough.
unfoldable pub descend : ℕ → List ℕ → List ℕ → ℕ → ℕ → Option Found
descend zero weights lefts index dice = none
descend (suc fuel) weights lefts index dice =
    let left : ℕ = at lefts index in
    let self : ℕ = at weights index in
    let go_left = descend fuel weights lefts (index * 2 + 1) dice in
    let go_right = descend fuel weights lefts (index * 2 + 2) (sub64 dice (add64 left self)) in
    if lt_int64 dice left
    then (if ltb (index * 2 + 1) (length weights) then go_left else none)
    else if lt_int64 dice (add64 left self)
    then some (record { index = index; offset = sub64 dice left })
    else (if ltb (index * 2 + 2) (length weights) then go_right else none)

pub record Selector : Type 0 where
  pub weights : List ℕ
  pub lefts : List ℕ
  pub total_ : ℕ

abbrev pub no_instances : Selector
no_instances = record { weights = []; lefts = []; total_ = 0 }

-- kWeightScale.
abbrev pub weight_scale : ℕ
weight_scale = 1008680231

-- The end of Add, Feedback and the selection itself, after a node's weight changed by `diff`.
unfoldable pub change_weight : ℕ → ℕ → Selector → Selector
change_weight index diff s = record {
  weights = set s.weights index (add64 (at s.weights index) diff);
  lefts = update_parent_weights diff index s.lefts;
  total_ = add64 s.total_ diff;
}

-- Add of a new instance to the first of the buffers: with the mean weight, or the scale at first.
unfoldable pub add : Selector → Selector
add s =
    let size : ℕ = length s.weights in
    let initial_weight : ℕ = if size == 0 then weight_scale else s.total_ / size in
    if initial_weight == 0
    then record s { weights = s.weights ++ 0 ∷ []; lefts = s.lefts ++ 0 ∷ [] }
    else record {
      weights = s.weights ++ initial_weight ∷ [];
      lefts = update_parent_weights initial_weight size (s.lefts ++ 0 ∷ []);
      total_ = add64 s.total_ initial_weight;
    }
