-- ===== src/LoadBalancer/LocalityAware/Descent.antt =====
-- The values with which the way down the weight tree ends at a node.
use polaris_cpp.Base.{
  ℕ, zero, suc, ◌+◌, ◌-◌, ◌*◌, ◌^◌, ◌≤◌, ◌<◌, Bool, true, false, Option, none, some, List, length,
  ltb, ◌==◌, if◌then◌else◌, add64, sub64, lt_int64_small, ◌≡◌, refl, ap, ◌∙◌, arith, inl, inr,
  Bool-cases,
}
use polaris_cpp.LoadBalancer.Counting.{
  count_from, count_same, count_constant, count_shift, count_three,
}
use polaris_cpp.LoadBalancer.LocalityAware.{at, descend, Found}
use polaris_cpp.LoadBalancer.LocalityAware.Tree.{
  under, subtree, under_below, under_self, under_split, under_apart,
}
use polaris_cpp.LoadBalancer.LocalityAware.Update.{LeftSums}

-- The weights in a subtree, as a number.
unfoldable pub weight_below : ℕ → List ℕ → ℕ → ℕ
weight_below zero weights i = 0
weight_below (suc fuel) weights i =
    let l : ℕ = weight_below fuel weights (i * 2 + 1) in
    let r : ℕ = weight_below fuel weights (i * 2 + 2) in
    if ltb i (length weights) then at weights i + l + r else 0

pub subtree_exact :
    (fuel : ℕ) (weights : List ℕ) (i : ℕ)
    → weight_below fuel weights i < 2 ^ 63
    → subtree fuel weights i ≡ weight_below fuel weights i
unfolding subtree weight_below
subtree_exact zero weights i small = refl
subtree_exact (suc fuel) weights i small = elim (Bool-cases (ltb i (length weights))) [
  | inl e ↦
      let s = rw e at small in
      let l = subtree_exact fuel weights (i * 2 + 1) (omega (arith, s)) in
      let r = subtree_exact fuel weights (i * 2 + 2) (omega (arith, s)) in
      rw (e, l, r) (omega (arith, s))
  | inr e ↦ rw e refl
]

outside :
    (fuel : ℕ) (weights : List ℕ) (i : ℕ) → length weights ≤ i → weight_below fuel weights i ≡ 0
unfolding weight_below
outside zero weights i h = refl
outside (suc fuel) weights i h = ground (arith, h)

pub subtree_fuel :
    (f g : ℕ) (weights : List ℕ) (i : ℕ)
    → length weights ≤ i + f
    → length weights ≤ i + g
    → subtree f weights i ≡ subtree g weights i
unfolding subtree
subtree_fuel zero zero weights i h k = refl
subtree_fuel zero (suc g) weights i h k = ground (arith, h)
subtree_fuel (suc f) zero weights i h k = ground (arith, k)
subtree_fuel (suc f) (suc g) weights i h k =
    rw
      (
        subtree_fuel f g weights (i * 2 + 1) (omega (arith, h)) (omega (arith, k)),
        subtree_fuel f g weights (i * 2 + 2) (omega (arith, h)) (omega (arith, k)),
      )
      refl

child_in :
    (fuel : ℕ) (weights : List ℕ) (c dice : ℕ)
    → dice < weight_below fuel weights c
    → ltb c (length weights) ≡ true
child_in fuel weights c dice h = elim (Bool-cases (ltb c (length weights))) [
  | inl e ↦ e
  | inr e ↦ ground (arith, h, outside fuel weights c (ground (arith, e)))
]

-- Whether the way down ends at a node.
abbrev pub ends_at : ℕ → Option Found → Bool
ends_at j none = false
ends_at j (some f) = f.index == j

-- The three parts that a node splits its values into.
node_case :
    (fuel : ℕ) (weights lefts : List ℕ) (i j dice l w : ℕ)
    → at lefts i ≡ l
    → at weights i ≡ w
    → dice < 2 ^ 63
    → l + w < 2 ^ 63
    → ends_at j (descend (suc fuel) weights lefts i dice) ≡ (
        if ltb dice l
        then (if ltb (i * 2 + 1) (length weights)
            then ends_at j (descend fuel weights lefts (i * 2 + 1) dice)
            else false)
        else if ltb dice (l + w)
        then i == j
        else (if ltb (i * 2 + 2) (length weights)
            then ends_at j (descend fuel weights lefts (i * 2 + 2) (dice - (l + w)))
            else false))
unfolding descend
node_case fuel weights lefts i j dice l w le we small fits =
    let a : add64 l w ≡ l + w = omega (arith, fits) in
    let p = lt_int64_small dice l small (omega (arith, fits)) in
    let q = lt_int64_small dice (l + w) small fits in
    rw (le, we, a, p, q)
      (elim (Bool-cases (ltb dice l)) [
        | inl c ↦ elim (Bool-cases (ltb (i * 2 + 1) (length weights))) [
          | inl e ↦ rw (c, e) refl
          | inr e ↦ rw (c, e) refl
        ]
        | inr c ↦ elim (Bool-cases (ltb dice (l + w))) [
          | inl d ↦ rw (c, d) refl
          | inr d ↦ elim (Bool-cases (ltb (i * 2 + 2) (length weights))) [
            | inl e ↦
                let s : sub64 dice (l + w) ≡ dice - (l + w) = ground (arith, d, small) in
                rw (c, d, e, s) refl
            | inr e ↦ rw (c, d, e) refl
          ]
        ]
      ])

module _ (weights lefts : List ℕ) (sums : LeftSums weights lefts) (j : ℕ)
    (inside : j < length weights) where
  -- The values of a node that end at node `j`, counted.
  abbrev hits : ℕ → ℕ → ℕ → Bool
  hits fuel i dice = ends_at j (descend fuel weights lefts i dice)

  -- Node j is the node itself, or in one half.
  node_share :
      (g i : ℕ)
      → j ≤ g
      → (if under g j (i * 2 + 1) then at weights j else 0)
          + (if i == j then at weights i else 0)
          + (if under g j (i * 2 + 2) then at weights j else 0)
        ≡ (if under g j i then at weights j else 0)
  node_share g i le = elim (Bool-cases (i == j)) [
    | inl e ↦
        let f : i ≡ j = ground (arith, e) in
        let u : under g j i ≡ true = ap (under g j) f ∙ under_self g j in
        let a : at weights i ≡ at weights j = ap (at weights) f in
        rw
          (
            e,
            u,
            under_below g j (i * 2 + 1) (omega (arith, f)),
            under_below g j (i * 2 + 2) (omega (arith, f)),
          )
          (omega (arith, a))
    | inr e ↦
        let s = under_split g j i le (ground (arith, e)) in
        elim (Bool-cases (under g j (i * 2 + 1))) [
          | inl h ↦ rw (e, s, h, under_apart g j i le h) (omega arith)
          | inr h ↦ rw (e, s, h) (omega arith)
        ]
  ]

  pub descent_count :
      (fuel g i : ℕ)
      → j ≤ g
      → length weights ≤ i + fuel
      → weight_below fuel weights i < 2 ^ 63
      → count_from (hits fuel i) 0 (weight_below fuel weights i)
        ≡ (if under g j i then at weights j else 0)
  unfolding weight_below
  descent_count zero g i le enough small =
      rw (under_below g j i (omega (arith, inside, enough))) refl
  descent_count (suc fuel) g i le enough small = elim (Bool-cases (ltb i (length weights))) [
    | inr out ↦ rw (out, under_below g j i (ground (arith, out, inside))) refl
    | inl in_ ↦
        let fits = rw in_ at small in
        let l : ℕ = weight_below fuel weights (i * 2 + 1) in
        let r : ℕ = weight_below fuel weights (i * 2 + 2) in
        let w : ℕ = at weights i in
        let left_is : at lefts i ≡ l =
          sums.1 i
          ∙ subtree_fuel (length weights) fuel weights (i * 2 + 1) (omega arith)
              (omega (arith, enough))
          ∙ subtree_exact fuel weights (i * 2 + 1) (omega (arith, fits)) in
        let by_case = λ (dice : ℕ) (small_dice : dice < 2 ^ 63).
          node_case fuel weights lefts i j dice l w left_is refl small_dice (omega (arith, fits)) in
        let cl : count_from (hits (suc fuel) i) 0 l
            ≡ (if under g j (i * 2 + 1) then at weights j else 0) =
          count_same (hits (suc fuel) i) (hits fuel (i * 2 + 1)) 0 l (λ d lo hi.
            let below : ltb d l ≡ true = ground (arith, hi) in
            let c = child_in fuel weights (i * 2 + 1) d (omega (arith, hi)) in
            by_case d (omega (arith, hi, fits)) ∙ rw (below, c) refl)
          ∙ descent_count fuel g (i * 2 + 1) le (omega (arith, enough)) (omega (arith, fits)) in
        let cw : count_from (hits (suc fuel) i) l w ≡ (if i == j then w else 0) =
          count_constant (hits (suc fuel) i) (i == j) l w (λ d lo hi.
            let past : ltb d l ≡ false = ground (arith, lo) in
            let here : ltb d (l + w) ≡ true = ground (arith, hi) in
            by_case d (omega (arith, hi, fits)) ∙ rw (past, here) refl) in
        let cr : count_from (hits (suc fuel) i) (l + w) r
            ≡ (if under g j (i * 2 + 2) then at weights j else 0) =
          let z : l + w ≡ l + w + 0 = omega arith in
          ap (λ k. count_from (hits (suc fuel) i) k r) z
          ∙ count_shift (hits (suc fuel) i) (hits fuel (i * 2 + 2)) (l + w) 0 r (λ d lo hi.
            let past : ltb (l + w + d) l ≡ false = ground arith in
            let past' : ltb (l + w + d) (l + w) ≡ false = ground arith in
            let c = child_in fuel weights (i * 2 + 2) d (omega (arith, hi)) in
            let e : l + w + d - (l + w) ≡ d = omega arith in
            by_case (l + w + d) (omega (arith, hi, fits)) ∙ rw (past, past', c, e) refl)
          ∙ descent_count fuel g (i * 2 + 2) le (omega (arith, enough)) (omega (arith, fits)) in
        rw in_ (count_three (hits (suc fuel) i) l w r ∙ rw (cl, cw, cr) (node_share g i le))
  ]
