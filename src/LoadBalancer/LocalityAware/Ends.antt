-- ===== src/LoadBalancer/LocalityAware/Ends.antt =====
-- The loops over the weight tree as rounds, one constructor for each way that a round can go. A
-- derivation has finitely many rounds.
use polaris_cpp.Base.{
  ℕ, zero, suc, ◌+◌, ◌-◌, ◌*◌, ◌/◌, ◌≤◌, ◌<◌, true, false, Option, none, some, List, length, set,
  ◌==◌, ◌≡◌, ltb, lt_int64, arith, inl, inr, Bool-cases, add64, sub64,
}
use polaris_cpp.LoadBalancer.LocalityAware.{at, Found, update_loop, update_parent_weights, descend}

-- The rounds of SelectInstance from a node and a dice on, and where they end.
pub data Down (weights lefts : List ℕ) : ℕ → ℕ → Option Found → Type 0 where
  go_left :
      (index dice : ℕ) (r : Option Found)
      → lt_int64 dice (at lefts index) ≡ true
      → index * 2 + 1 < length weights
      → Down weights lefts (index * 2 + 1) dice r
      → Down weights lefts index dice r
  leave_left :
      (index dice : ℕ)
      → lt_int64 dice (at lefts index) ≡ true
      → length weights ≤ index * 2 + 1
      → Down weights lefts index dice none
  found :
      (index dice : ℕ)
      → lt_int64 dice (at lefts index) ≡ false
      → lt_int64 dice (add64 (at lefts index) (at weights index)) ≡ true
      → Down weights lefts index dice
          (some (record { index = index; offset = sub64 dice (at lefts index) }))
  go_right :
      (index dice : ℕ) (r : Option Found)
      → lt_int64 dice (at lefts index) ≡ false
      → lt_int64 dice (add64 (at lefts index) (at weights index)) ≡ false
      → index * 2 + 2 < length weights
      → Down weights lefts
          (index * 2 + 2)
          (sub64 dice (add64 (at lefts index) (at weights index)))
          r
      → Down weights lefts index dice r
  leave_right :
      (index dice : ℕ)
      → lt_int64 dice (at lefts index) ≡ false
      → lt_int64 dice (add64 (at lefts index) (at weights index)) ≡ false
      → length weights ≤ index * 2 + 2
      → Down weights lefts index dice none

-- The rounds of UpdateParentWeights from a node on, and the left sums that they end with.
pub data Up (diff : ℕ) : ℕ → List ℕ → List ℕ → Type 0 where
  root : (lefts : List ℕ) → Up diff 0 lefts lefts
  from_left :
      (index parent_index : ℕ) (lefts r : List ℕ)
      → index ≡ parent_index * 2 + 1
      → Up diff parent_index (set lefts parent_index (add64 (at lefts parent_index) diff)) r
      → Up diff index lefts r
  from_right :
      (index parent_index : ℕ) (lefts r : List ℕ)
      → index ≡ parent_index * 2 + 2
      → Up diff parent_index lefts r
      → Up diff index lefts r

descend-Down :
    (fuel : ℕ) (weights lefts : List ℕ) (index dice : ℕ)
    → index < length weights
    → length weights ≤ index + fuel
    → Down weights lefts index dice (descend fuel weights lefts index dice)
unfolding descend
descend-Down zero weights lefts index dice inside enough = let bad : ⊥ = omega arith in elim bad [ ]
descend-Down (suc fuel) weights lefts index dice inside enough =
    elim (Bool-cases (lt_int64 dice (at lefts index))) [
      | inl l ↦ elim (Bool-cases (ltb (index * 2 + 1) (length weights))) [
        | inl t ↦
            rw (l, t)
              (go_left index dice _ l (ground (arith, t)) (
                descend-Down fuel weights lefts (index * 2 + 1) dice (ground (arith, t))
                  (omega arith)))
        | inr t ↦ rw (l, t) (leave_left index dice l (ground (arith, t)))
      ]
      | inr l ↦ elim (Bool-cases (lt_int64 dice (add64 (at lefts index) (at weights index)))) [
        | inl m ↦ rw (l, m) (found index dice l m)
        | inr m ↦ elim (Bool-cases (ltb (index * 2 + 2) (length weights))) [
          | inl t ↦
              rw (l, m, t)
                (go_right index dice _ l m (ground (arith, t)) (
                  descend-Down fuel weights lefts (index * 2 + 2) _ (ground (arith, t))
                    (omega arith)))
          | inr t ↦ rw (l, m, t) (leave_right index dice l m (ground (arith, t)))
        ]
      ]
    ]

update_loop-Up :
    (fuel diff index : ℕ) (lefts : List ℕ)
    → index ≤ fuel
    → Up diff index lefts (update_loop fuel diff index lefts)
unfolding update_loop
update_loop-Up zero diff zero lefts h = root lefts
update_loop-Up (suc fuel) diff zero lefts h = root lefts
update_loop-Up zero diff (suc n) lefts h = let bad : ⊥ = omega arith in elim bad [ ]
update_loop-Up (suc fuel) diff (suc n) lefts h =
    let q : ℕ = (suc n - 1) / 2 in
    let rest = update_loop-Up fuel diff q in
    let top : suc n == 0 ≡ false = ground arith in
    elim (Bool-cases (q * 2 + 1 == suc n)) [
      | inl t ↦ rw (top, t) (from_left (suc n) q lefts _ (ground (arith, t)) (rest _ (omega arith)))
      | inr t ↦
          rw (top, t) (from_right (suc n) q lefts _ (ground (arith, t)) (rest _ (omega arith)))
    ]

-- Both loops end, whatever the weights and the left sums are, also when they do not fit together:
-- from the root of a tree that is not empty, and from any node up, finitely many rounds of the
-- code's loop lead out of it, and `descend` with the size of the tree as fuel, and
-- `update_parent_weights` with the index, give what those rounds end with.
pub tree_loops_end :
    (diff index dice : ℕ) (weights lefts : List ℕ)
    → 0 < length weights
    → Down weights lefts 0 dice (descend (length weights) weights lefts 0 dice)
      × Up diff index lefts (update_parent_weights diff index lefts)
tree_loops_end diff index dice weights lefts pos = (
  descend-Down (length weights) weights lefts 0 dice pos (omega arith),
  update_loop-Up index diff index lefts (omega arith),
)
