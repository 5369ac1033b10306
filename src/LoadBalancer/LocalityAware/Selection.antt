-- ===== src/LoadBalancer/LocalityAware/Selection.antt =====
-- What a selection gives each instance, whatever happened before.
use polaris_cpp.Base.{ℕ, ◌^◌, ◌<◌, length, ◌≡◌, refl, ◌∙◌, arith}
use polaris_cpp.LoadBalancer.Counting.{count_from}
use polaris_cpp.LoadBalancer.LocalityAware.{at, descend, Selector, no_instances, change_weight, add}
use polaris_cpp.LoadBalancer.LocalityAware.Tree.{subtree}
use polaris_cpp.LoadBalancer.LocalityAware.Descent.{
  weight_below, ends_at, descent_count, subtree_exact,
}
use polaris_cpp.LoadBalancer.LocalityAware.Invariant.{
  IsValid, add-IsValid, change_weight-IsValid, under_root,
}

-- The selectors that additions and changes of weights make.
pub data Reached : Selector → Type 0 where
  empty : Reached no_instances
  added : (s : Selector) → Reached s → Reached (add s)
  changed :
      (s : Selector) (index diff : ℕ)
      → index < length s.weights
      → Reached s
      → Reached (change_weight index diff s)

-- Additions of instances and changes of their weights by any differences keep every `left` the sum
-- of the weights below the left child and the total the sum of all, modulo 2 ^ 64.
pub reached-IsValid : (s : Selector) → Reached s → IsValid s
unfolding subtree
reached-IsValid s empty = record { sums = (refl, λ p. refl); total = refl }
reached-IsValid s (added t r) = add-IsValid t (reached-IsValid t r)
reached-IsValid s (changed t index diff inside r) =
    change_weight-IsValid t index diff inside (reached-IsValid t r)

-- As long as the weights add up to less than 2 ^ 63, of the values below the total exactly as many
-- lead down to an instance as it has weight.
pub selection_share :
    (s : Selector) (j : ℕ)
    → Reached s
    → weight_below (length s.weights) s.weights 0 < 2 ^ 63
    → j < length s.weights
    → count_from
        (λ dice. ends_at j (descend (length s.weights) s.weights s.lefts 0 dice))
        0
        s.total_
      ≡ at s.weights j
selection_share s j r small inside =
    let v = reached-IsValid s r in
    let n : ℕ = length s.weights in
    let total : s.total_ ≡ weight_below n s.weights 0 =
      v.total ∙ subtree_exact n s.weights 0 small in
    let up = under_root n j (omega (arith, inside)) in
    rw total (
      descent_count s.weights s.lefts v.sums j inside n n 0 (omega (arith, inside)) (omega arith)
        small
      ∙ rw up refl)
