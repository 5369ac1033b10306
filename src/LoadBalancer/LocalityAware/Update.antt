-- ===== src/LoadBalancer/LocalityAware/Update.antt =====
-- UpdateParentWeights and the left sums, when a node's weight changes.
use polaris_cpp.Base.{
  ℕ, zero, suc, ◌+◌, ◌-◌, ◌*◌, ◌/◌, ◌≤◌, ◌<◌, true, false, List, [], ◌∷◌, length, set, ltb, ◌==◌,
  if◌then◌else◌, add64, ◌≡◌, ◌≢◌, refl, sym, ap, ◌∙◌, arith, inl, inr, Bool-cases, length-set,
}
use polaris_cpp.LoadBalancer.LocalityAware.{at, update_loop, update_parent_weights}
use polaris_cpp.LoadBalancer.LocalityAware.Tree.{
  under, subtree, under_below, under_self, under_split, under_apart,
}

at-set :
    (xs : List ℕ) (l k v : ℕ) → l < length xs → at (set xs l v) k ≡ (if k == l then v else at xs k)
at-set [] l k v h = ground (arith, h)
at-set (x ∷ xs) zero zero v h = refl
at-set (x ∷ xs) zero (suc k) v h = ground arith
at-set (x ∷ xs) (suc l) zero v h = ground arith
at-set (x ∷ xs) (suc l) (suc k) v h = ground (arith, at-set xs l k v)

-- The weights with a change at one node.
abbrev pub changed : List ℕ → ℕ → ℕ → List ℕ
changed weights j diff = set weights j (add64 (at weights j) diff)

module _ (weights : List ℕ) (j diff : ℕ) (inside : j < length weights) where
  -- A node whose halves have changed where the change stands in them.
  node_changed :
      (g i l r : ℕ)
      → j ≤ g
      → add64 (at (changed weights j diff) i) (
          add64
            (if under g j (i * 2 + 1) then add64 l diff else l)
            (if under g j (i * 2 + 2) then add64 r diff else r))
        ≡ (if under g j i
            then add64 (add64 (at weights i) (add64 l r)) diff
            else add64 (at weights i) (add64 l r))
  node_changed g i l r le = elim (Bool-cases (i == j)) [
    | inl e ↦
        let f : i ≡ j = ground (arith, e) in
        let a : at (changed weights j diff) i ≡ add64 (at weights i) diff =
          at-set weights j i (add64 (at weights j) diff) inside
          ∙ rw e (ap (λ k. add64 (at weights k) diff) (sym f)) in
        let u : under g j i ≡ true = ap (under g j) f ∙ under_self g j in
        rw
          (
            a,
            u,
            under_below g j (i * 2 + 1) (omega (arith, f)),
            under_below g j (i * 2 + 2) (omega (arith, f)),
          )
          (omega arith)
    | inr e ↦
        let a : at (changed weights j diff) i ≡ at weights i =
          at-set weights j i (add64 (at weights j) diff) inside ∙ rw e refl in
        let n : j ≢ i = ground (arith, e) in
        let s = under_split g j i le n in
        rw a (elim (Bool-cases (under g j (i * 2 + 1))) [
          | inl h ↦ rw (s, h, under_apart g j i le h) (omega arith)
          | inr h ↦ elim (Bool-cases (under g j (i * 2 + 2))) [
            | inl k ↦ rw (s, h, k) (omega arith)
            | inr k ↦ rw (s, h, k) refl
          ]
        ])
  ]

  pub subtree-changed :
      (fuel g i : ℕ)
      → j ≤ g
      → length weights ≤ i + fuel
      → subtree fuel (changed weights j diff) i
        ≡ (if under g j i then add64 (subtree fuel weights i) diff else subtree fuel weights i)
  unfolding subtree
  subtree-changed zero g i le enough = rw (under_below g j i (omega (arith, inside, enough))) refl
  subtree-changed (suc fuel) g i le enough =
      let n = length-set weights j (add64 (at weights j) diff) in
      let l = subtree-changed fuel g (i * 2 + 1) le (omega (arith, enough)) in
      let r = subtree-changed fuel g (i * 2 + 2) le (omega (arith, enough)) in
      elim (Bool-cases (ltb i (length weights))) [
        | inr out ↦ rw (n, out, under_below g j i (ground (arith, out, inside))) refl
        | inl in_ ↦
            rw (n, in_, l, r)
              (node_changed g i (subtree fuel weights (i * 2 + 1))
                (subtree fuel weights (i * 2 + 2)) le)
      ]

-- What the loop adds to each `left`.
update_loop-at :
    (fuel diff j p : ℕ) (lefts : List ℕ)
    → j ≤ fuel
    → j < length lefts
    → at (update_loop fuel diff j lefts) p
      ≡ (if under fuel j (p * 2 + 1) then add64 (at lefts p) diff else at lefts p)
unfolding update_loop under
update_loop-at zero diff j p lefts le h = ground (arith, le)
update_loop-at (suc fuel) diff j p lefts le h =
    let q : ℕ = (j - 1) / 2 in
    elim (Bool-cases (j == 0)) [
      | inl z ↦ ground (arith, z)
      | inr nz ↦ elim (Bool-cases (q * 2 + 1 == j)) [
        | inr right ↦
            let no : (j == p * 2 + 1) ≡ false = ground (arith, right, nz) in
            rw (nz, right, no)
              (update_loop-at fuel diff q p lefts (ground (arith, le, nz)) (ground (arith, h, nz)))
        | inl child ↦
            let lefts' : List ℕ = set lefts q (add64 (at lefts q) diff) in
            let n = length-set lefts q (add64 (at lefts q) diff) in
            let inside : q < length lefts = ground (arith, h, nz) in
            let a = at-set lefts q p (add64 (at lefts q) diff) inside in
            let ih =
              update_loop-at fuel diff q p lefts' (ground (arith, le, nz))
                (omega (arith, n, inside)) in
            rw (nz, child, ih, a)
              (elim (Bool-cases (p == q)) [
                | inl e ↦
                    let f : p ≡ q = ground (arith, e) in
                    let yes_ : (j == p * 2 + 1) ≡ true = ground (arith, e, child) in
                    rw (e, yes_, under_below fuel q (p * 2 + 1) (omega (arith, f)))
                      (ap (λ k. add64 (at lefts k) diff) (sym f))
                | inr e ↦
                    let no : (j == p * 2 + 1) ≡ false = ground (arith, e, child) in rw (e, no) refl
              ])
      ]
    ]

-- Each `left` is the sum of the weights in the left half below its node.
abbrev pub LeftSums : List ℕ → List ℕ → Type 0
LeftSums weights lefts =
    (length lefts ≡ length weights)
    × ((p : ℕ) → at lefts p ≡ subtree (length weights) weights (p * 2 + 1))

length-update_loop :
    (fuel diff j : ℕ) (lefts : List ℕ) → length (update_loop fuel diff j lefts) ≡ length lefts
unfolding update_loop
length-update_loop zero diff j lefts = refl
length-update_loop (suc fuel) diff j lefts =
    let q : ℕ = (j - 1) / 2 in
    elim (Bool-cases (j == 0)) [
      | inl z ↦ rw z refl
      | inr nz ↦ elim (Bool-cases (q * 2 + 1 == j)) [
        | inl child ↦
            rw (nz, child)
              (length-update_loop fuel diff q (set lefts q (add64 (at lefts q) diff))
                ∙ length-set lefts q (add64 (at lefts q) diff))
        | inr right ↦ rw (nz, right) (length-update_loop fuel diff q lefts)
      ]
    ]

-- When the weight of a node changes by any difference, UpdateParentWeights with that difference
-- makes every `left` the sum below its left child again, modulo 2 ^ 64.
pub update_parent_weights-LeftSums :
    (weights lefts : List ℕ) (j diff : ℕ)
    → j < length weights
    → LeftSums weights lefts
    → LeftSums (changed weights j diff) (update_parent_weights diff j lefts)
update_parent_weights-LeftSums weights lefts j diff inside (n, sums) =
    let m = length-set weights j (add64 (at weights j) diff) in
    (
      length-update_loop j diff j lefts ∙ n ∙ sym m,
      λ p.
          update_loop-at j diff j p lefts (omega arith) (omega (arith, n, inside))
          ∙ rw (m, sums p)
              (sym (
                subtree-changed weights j diff inside (length weights) j (p * 2 + 1) (omega arith)
                  (omega arith))),
    )
