-- ===== src/LoadBalancer/LocalityAware/Tree.antt =====
-- Subtrees of the weight tree and what their weights add up to.
use polaris_cpp.Base.{
  ℕ, zero, suc, ◌+◌, ◌-◌, ◌*◌, ◌/◌, ◌≤◌, ◌<◌, Bool, true, false, List, length, ltb, ◌==◌,
  if◌then◌else◌, add64, ◌≡◌, ◌≢◌, refl, ap, ◌∙◌, arith, inl, inr, Bool-cases, ◌||◌,
}
use polaris_cpp.LoadBalancer.LocalityAware.{at}

-- Whether a node stands in the subtree of another; going up takes at most `fuel` parents.
unfoldable pub under : ℕ → ℕ → ℕ → Bool
under zero j i = j == i
under (suc fuel) j i =
    let up = under fuel ((j - 1) / 2) i in if j == i then true else if j == 0 then false else up

-- The weights in a subtree, modulo 2 ^ 64.
unfoldable pub subtree : ℕ → List ℕ → ℕ → ℕ
subtree zero weights i = 0
subtree (suc fuel) weights i =
    let l : ℕ = subtree fuel weights (i * 2 + 1) in
    let r : ℕ = subtree fuel weights (i * 2 + 2) in
    if ltb i (length weights) then add64 (at weights i) (add64 l r) else 0

-- Once the fuel passes the size, more of it changes nothing.
pub subtree_stable :
    (fuel : ℕ) (weights : List ℕ) (i : ℕ)
    → length weights ≤ i + fuel
    → subtree (suc fuel) weights i ≡ subtree fuel weights i
unfolding subtree
subtree_stable zero weights i h = ground (arith, h)
subtree_stable (suc fuel) weights i h =
    rw
      (
        subtree_stable fuel weights (i * 2 + 1) (omega (arith, h)),
        subtree_stable fuel weights (i * 2 + 2) (omega (arith, h)),
      )
      refl

-- A node that is not above itself.
pub under_below : (fuel j i : ℕ) → j < i → under fuel j i ≡ false
unfolding under
under_below zero j i h = ground (arith, h)
under_below (suc fuel) j i h = ground (arith, h, under_below fuel ((j - 1) / 2) i)

pub under_self : (fuel j : ℕ) → under fuel j j ≡ true
unfolding under
under_self zero j = ground arith
under_self (suc fuel) j = ground arith

-- A node in the subtree is the root or in one of the two halves.
pub under_split :
    (fuel j i : ℕ)
    → j ≤ fuel
    → j ≢ i
    → under fuel j i ≡ (under fuel j (i * 2 + 1) || under fuel j (i * 2 + 2))
unfolding under
under_split zero j i le n = ground (arith, le, n)
under_split (suc fuel) j i le n =
    let p : ℕ = (j - 1) / 2 in
    let root : (j == i) ≡ false = ground (arith, n) in
    elim (Bool-cases (j == 0)) [
      | inl z ↦ ground (arith, z, n)
      | inr nz ↦ elim (Bool-cases (p == i)) [
        | inl e ↦
            let pe : p ≡ i = ground (arith, e) in
            let up : under fuel p i ≡ true = ap (λ k. under fuel k i) pe ∙ under_self fuel i in
            ground (arith, root, nz, up, pe)
        | inr e ↦
            let pn : p ≢ i = ground (arith, e) in
            let l : (j == i * 2 + 1) ≡ false = ground (arith, pn, nz) in
            let r : (j == i * 2 + 2) ≡ false = ground (arith, pn, nz) in
            rw (root, nz, l, r) (under_split fuel p i (ground (arith, le, nz)) pn)
      ]
    ]

-- And not in both.
pub under_apart :
    (fuel j i : ℕ) → j ≤ fuel → under fuel j (i * 2 + 1) ≡ true → under fuel j (i * 2 + 2) ≡ false
unfolding under
under_apart zero j i le h = ground (arith, le, h)
under_apart (suc fuel) j i le h =
    let p : ℕ = (j - 1) / 2 in
    elim (Bool-cases (j == 0)) [
      | inl z ↦ ground (arith, z)
      | inr nz ↦ elim (Bool-cases (p == i)) [
        | inl e ↦
            let pe : p ≡ i = ground (arith, e) in
            let below : under fuel p (i * 2 + 1) ≡ false =
              under_below fuel p (i * 2 + 1) (omega (arith, pe)) in
            let below' : under fuel p (i * 2 + 2) ≡ false =
              under_below fuel p (i * 2 + 2) (omega (arith, pe)) in
            ground (arith, nz, h, below, below')
        | inr e ↦
            let pn : p ≢ i = ground (arith, e) in
            let l : (j == i * 2 + 1) ≡ false = ground (arith, pn, nz) in
            let r : (j == i * 2 + 2) ≡ false = ground (arith, pn, nz) in
            rw (nz, r) (under_apart fuel p i (ground (arith, le, nz)) (rw (l, nz) at h))
      ]
    ]
