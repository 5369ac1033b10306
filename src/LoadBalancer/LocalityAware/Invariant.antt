-- ===== src/LoadBalancer/LocalityAware/Invariant.antt =====
-- The selector over its operations, and the shares of its instances.
use polaris_cpp.Base.{
  ℕ, zero, suc, ◌+◌, ◌-◌, ◌*◌, ◌/◌, ◌^◌, ◌≤◌, ◌<◌, true, false, List, [], ◌∷◌, ◌++◌, length, set,
  ltb, ◌==◌, if◌then◌else◌, add64, ◌≡◌, refl, sym, ap, ◌∙◌, arith, inl, inr, Bool-cases,
  length-append, length-set,
}
use native.Mathlib.Nat.{div-le_self}
use polaris_cpp.LoadBalancer.LocalityAware.{at, Selector, weight_scale, change_weight, add}
use polaris_cpp.LoadBalancer.LocalityAware.Tree.{under, subtree}
use polaris_cpp.LoadBalancer.LocalityAware.Update.{
  LeftSums, update_parent_weights-LeftSums, subtree-changed,
}
use polaris_cpp.LoadBalancer.LocalityAware.Descent.{subtree_fuel}

pub record IsValid (s : Selector) : Type 0 where
  pub sums : LeftSums s.weights s.lefts
  pub total : s.total_ ≡ subtree (length s.weights) s.weights 0

-- A node goes up to the root.
pub under_root : (fuel j : ℕ) → j ≤ fuel → under fuel j 0 ≡ true
unfolding under
under_root zero j h = ground (arith, h)
under_root (suc fuel) j h = ground (arith, h, under_root fuel ((j - 1) / 2))

pub change_weight-IsValid :
    (s : Selector) (index diff : ℕ)
    → index < length s.weights
    → IsValid s
    → IsValid (change_weight index diff s)
unfolding change_weight
change_weight-IsValid s index diff inside v =
    let n = length-set s.weights index (add64 (at s.weights index) diff) in
    record {
      sums = update_parent_weights-LeftSums s.weights s.lefts index diff inside v.sums;
      total =
          let t =
            subtree-changed s.weights index diff inside (length s.weights) index 0 (omega arith)
              (omega arith) in
          rw (v.total, n, t, under_root index index (omega arith)) refl;
    }

at_end : (xs : List ℕ) (x : ℕ) → at (xs ++ x ∷ []) (length xs) ≡ x
at_end [] x = refl
at_end (y ∷ xs) x = at_end xs x

set_end : (xs : List ℕ) (x y : ℕ) → set (xs ++ x ∷ []) (length xs) y ≡ xs ++ y ∷ []
set_end [] x y = refl
set_end (z ∷ xs) x y = ap (λ l. z ∷ l) (set_end xs x y)

at-append : (xs : List ℕ) (i : ℕ) → at (xs ++ 0 ∷ []) i ≡ at xs i
at-append [] zero = refl
at-append [] (suc i) = refl
at-append (x ∷ xs) zero = refl
at-append (x ∷ xs) (suc i) = at-append xs i

subtree_outside :
    (fuel : ℕ) (weights : List ℕ) (i : ℕ) → length weights ≤ i → subtree fuel weights i ≡ 0
unfolding subtree
subtree_outside zero weights i h = refl
subtree_outside (suc fuel) weights i h = ground (arith, h)

at_outside : (xs : List ℕ) (i : ℕ) → length xs ≤ i → at xs i ≡ 0
at_outside [] i h = refl
at_outside (x ∷ xs) zero h = ground (arith, h)
at_outside (x ∷ xs) (suc i) h = at_outside xs i (omega (arith, h))

-- An instance without weight changes no sum.
subtree-append :
    (fuel : ℕ) (weights : List ℕ) (i : ℕ)
    → subtree fuel (weights ++ 0 ∷ []) i ≡ subtree fuel weights i
unfolding subtree
subtree-append zero weights i = refl
subtree-append (suc fuel) weights i =
    let n : length (weights ++ 0 ∷ []) ≡ length weights + 1 = length-append weights (0 ∷ []) in
    rw
      (
        n,
        at-append weights i,
        subtree-append fuel weights (i * 2 + 1),
        subtree-append fuel weights (i * 2 + 2),
      )
      (elim (Bool-cases (ltb i (length weights))) [
        | inl e ↦ let f : ltb i (length weights + 1) ≡ true = ground (arith, e) in rw (e, f) refl
        | inr e ↦
            let past : length weights ≤ i = ground (arith, e) in
            rw
              (
                e,
                at_outside weights i past,
                subtree_outside fuel weights (i * 2 + 1) (omega (arith, past)),
                subtree_outside fuel weights (i * 2 + 2) (omega (arith, past)),
              )
              (ground arith)
      ])

longer_fuel :
    (weights : List ℕ) (i : ℕ)
    → subtree (length weights + 1) weights i ≡ subtree (length weights) weights i
longer_fuel weights i =
    subtree_fuel (length weights + 1) (length weights) weights i (omega arith) (omega arith)

-- The selector before the weight of a new instance is known.
abbrev widened : Selector → Selector
widened s = record s { weights = s.weights ++ 0 ∷ []; lefts = s.lefts ++ 0 ∷ [] }

widened-IsValid : (s : Selector) → IsValid s → IsValid (widened s)
widened-IsValid s v =
    let n : length (s.weights ++ 0 ∷ []) ≡ length s.weights + 1 =
      length-append s.weights (0 ∷ []) in
    let m : length (s.lefts ++ 0 ∷ []) ≡ length s.lefts + 1 = length-append s.lefts (0 ∷ []) in
    let k = v.sums.0 in
    record {
      sums = (
        omega (arith, n, m, k),
        λ p.
            at-append s.lefts p
            ∙ v.sums.1 p
            ∙ rw (n, subtree-append (length s.weights + 1) s.weights (p * 2 + 1))
                (sym (longer_fuel s.weights (p * 2 + 1))),
      );
      total =
          v.total
          ∙ rw (n, subtree-append (length s.weights + 1) s.weights 0)
              (sym (longer_fuel s.weights 0));
    }

subtree_lt : (fuel : ℕ) (weights : List ℕ) (i : ℕ) → subtree fuel weights i < 2 ^ 64
unfolding subtree
subtree_lt zero weights i = omega arith
subtree_lt (suc fuel) weights i = ground arith

-- The weight of a new instance.
abbrev initial : Selector → ℕ
initial s = if length s.weights == 0 then weight_scale else s.total_ / length s.weights

initial_lt : (s : Selector) → IsValid s → initial s < 2 ^ 64
initial_lt s v = ground (
  arith,
  v.total,
  subtree_lt (length s.weights) s.weights 0,
  div-le_self s.total_ (length s.weights),
)

add_changes :
    (s : Selector)
    → IsValid s
    → (initial s == 0) ≡ false
    → add s ≡ change_weight (length s.weights) (initial s) (widened s)
unfolding add change_weight
add_changes s v nz =
    let w : add64 0 (initial s) ≡ initial s = omega (arith, initial_lt s v) in
    rw (nz, at_end s.weights 0, w, set_end s.weights 0 (initial s)) refl

pub add-IsValid : (s : Selector) → IsValid s → IsValid (add s)
unfolding add
add-IsValid s v = elim (Bool-cases (initial s == 0)) [
  | inl z ↦ rw z (widened-IsValid s v)
  | inr nz ↦
      let inside : length s.weights < length (s.weights ++ 0 ∷ []) =
        omega (arith, length-append s.weights (0 ∷ [])) in
      rw (add_changes s v nz) (
        change_weight-IsValid (widened s) (length s.weights) (initial s) inside
          (widened-IsValid s v))
]
