-- ===== src/Router/Nearby/Loops.antt =====
-- The loops of CalculateResult, over levels of fewer than 2 ^ 32 instances each.
use polaris_cpp.Base.{
  ℕ, zero, suc, ◌+◌, ◌*◌, ◌^◌, ◌≤◌, ◌<◌, true, none, some, List, [], length, ltb, leb, ◌==◌,
  if◌then◌else◌, ◌&&◌, ◌≡◌, refl, sym, ap, ◌∙◌, arith, inl, inr, Bool-cases, length-append, add64,
  mul64,
}
use native.Mathlib.Nat.{mul-le-mul_left}
use polaris_cpp.Router.Nearby.{NearbyRouterSet, at, size_at, match_loop, degrade_loop, gather}

-- A part that is below a percentage of the whole is below the whole.
few_unhealthy :
    (unhealthy total percent : ℕ)
    → percent ≤ 100
    → total ≤ 2 ^ 34
    → unhealthy ≤ total
    → ltb (mul64 unhealthy 100) (mul64 total percent) ≡ true
    → unhealthy < total
few_unhealthy unhealthy total percent p small part less =
    let m = mul-le-mul_left total p in ground (arith, small, m, part, less)

module _ {S : Type 0} (data_ : List (NearbyRouterSet S)) where
  abbrev pub instances_at : ℕ → ℕ
  instances_at k = length (at data_ k).healthy_ + length (at data_ k).unhealthy_

  abbrev pub Small : Type 0
  Small = (k : ℕ) → instances_at k < 2 ^ 32

  pub size_exact : (k : ℕ) → Small → size_at data_ k ≡ instances_at k
  size_exact k small = omega (arith, small k)

  pub match_loop_le : (max_level n : ℕ) → match_loop data_ max_level n ≤ n
  unfolding match_loop
  match_loop_le max_level zero = omega arith
  match_loop_le max_level (suc n) = ground (arith, match_loop_le max_level n)

  pub match_loop_least :
      (max_level n : ℕ) → max_level ≤ n → max_level ≤ match_loop data_ max_level n
  unfolding match_loop
  match_loop_least max_level zero h = h
  match_loop_least max_level (suc n) h = ground (arith, match_loop_least max_level n, h)

  -- The loop ends at a level with instances when there is one.
  pub match_loop_found :
      (max_level n k : ℕ)
      → Small
      → max_level ≤ k
      → k ≤ n
      → 0 < instances_at k
      → 0 < instances_at (match_loop data_ max_level n)
  unfolding match_loop
  match_loop_found max_level zero k small lo hi pos =
      let e : k ≡ 0 = omega (arith, hi) in rw (sym e) pos
  match_loop_found max_level (suc n) k small lo hi pos =
      elim (Bool-cases (leb (size_at data_ (suc n)) 0 && ltb max_level (suc n))) [
        | inl down ↦ rw down (elim (Bool-cases (k == suc n)) [
          | inl e ↦
              let f : suc n ≡ k = ground (arith, e) in
              let z : size_at data_ k ≡ instances_at k = size_exact k small in
              let y : size_at data_ (suc n) ≡ size_at data_ k = ap (size_at data_) f in
              let bad : ⊥ = ground (arith, down, z, pos, y) in elim bad [ ]
          | inr e ↦ match_loop_found max_level n k small lo (ground (arith, e, hi)) pos
        ])
        | inr stay ↦ rw stay (elim (Bool-cases (leb (size_at data_ (suc n)) 0)) [
          | inl e ↦ let f : k ≡ suc n = ground (arith, stay, e, lo, hi) in rw (sym f) pos
          | inr e ↦ ground (arith, e, size_exact (suc n) small)
        ])
      ]

  -- Below the top level, a gathering has none.
  gather_above : (t : ℕ) → gather data_ (suc t) t ≡ []
  unfolding gather
  gather_above zero = refl
  gather_above (suc t) = ground arith

  pub gather_level : (t : ℕ) → length (gather data_ t t) ≡ length (at data_ t).healthy_
  unfolding gather
  gather_level zero = refl
  gather_level (suc t) =
      let e : leb (suc t) (suc t) ≡ true = ground arith in
      rw (e, gather_above t) (length-append (at data_ (suc t)).healthy_ [] ∙ omega arith)

  gather_down :
      (l top : ℕ)
      → suc l ≤ top
      → length (gather data_ l top)
        ≡ length (gather data_ (suc l) top) + length (at data_ l).healthy_
  unfolding gather
  gather_down l zero h = ground (arith, h)
  gather_down l (suc top) h =
      let p : leb l (suc top) ≡ true = ground (arith, h) in
      let q : leb (suc l) (suc top) ≡ true = ground (arith, h) in
      rw (p, q)
        (elim (Bool-cases (l == top)) [
          | inl e ↦
              let f : l ≡ top = ground (arith, e) in
              let g : length (gather data_ l top) ≡ length (at data_ l).healthy_ =
                ap (λ t. length (gather data_ l t)) (sym f) ∙ gather_level l in
              let g' : length (gather data_ (suc l) top) ≡ 0 =
                ap (λ t. length (gather data_ (suc l) t)) (sym f) ∙ ap length (gather_above l) in
              omega (
                arith,
                g,
                g',
                length-append (at data_ (suc top)).healthy_ (gather data_ l top),
                length-append (at data_ (suc top)).healthy_ (gather data_ (suc l) top),
              )
          | inr e ↦ omega (
            arith,
            gather_down l top (ground (arith, e, h)),
            length-append (at data_ (suc top)).healthy_ (gather data_ l top),
            length-append (at data_ (suc top)).healthy_ (gather data_ (suc l) top),
          )
        ])

  degrade_step :
      (max_level percent n total_size unhealthy_size total unhealthy : ℕ)
      → add64 total_size (size_at data_ n) ≡ total
      → add64 unhealthy_size (length (at data_ n).unhealthy_) ≡ unhealthy
      → degrade_loop data_ max_level percent (suc n) total_size unhealthy_size ≡ (
          if ltb n max_level
          then none
          else if ltb (mul64 unhealthy 100) (mul64 total percent)
          then some n
          else degrade_loop data_ max_level percent n total unhealthy)
  unfolding degrade_loop
  degrade_step max_level percent n total_size unhealthy_size total unhealthy t u = rw (t, u) refl

  -- A degradation ends within the levels allowed, with a healthy instance gathered. `total_size` is
  -- the unhealthy ones and those gathered so far.
  pub degrade_loop_found :
      (max_level percent n top total_size unhealthy_size to : ℕ)
      → Small
      → percent ≤ 100
      → n ≤ top
      → total_size + n * 2 ^ 32 ≤ 2 ^ 34
      → total_size ≡ unhealthy_size + length (gather data_ n top)
      → degrade_loop data_ max_level percent n total_size unhealthy_size ≡ some to
      → (max_level ≤ to) × ((to < n) × (0 < length (gather data_ to top)))
  unfolding degrade_loop
  degrade_loop_found max_level percent zero top total_size unhealthy_size to small p le room sum e =
      ground (arith, e)
  degrade_loop_found max_level percent (suc n) top total_size unhealthy_size to small p le room sum
        e =
      let total : ℕ = total_size + instances_at n in
      let unhealthy : ℕ = unhealthy_size + length (at data_ n).unhealthy_ in
      let s = small n in
      let t : add64 total_size (size_at data_ n) ≡ total =
        omega (arith, room, size_exact n small, s) in
      let u : add64 unhealthy_size (length (at data_ n).unhealthy_) ≡ unhealthy =
        omega (arith, room, sum, s) in
      let g = gather_down n top le in
      let f =
        sym (degrade_step max_level percent n total_size unhealthy_size total unhealthy t u) ∙ e in
      elim (Bool-cases (ltb n max_level)) [
        | inl out ↦ ground (arith, out, rw out at f)
        | inr in_ ↦
            let f' = rw in_ at f in
            elim (Bool-cases (ltb (mul64 unhealthy 100) (mul64 total percent))) [
              | inl stop ↦
                  let some_n = rw stop at f' in
                  let n_to : n ≡ to = ground (arith, some_n) in
                  let few =
                    few_unhealthy unhealthy total percent p (omega (arith, room, s))
                      (omega (arith, sum)) stop in
                  let g' : length (gather data_ to top) ≡ length (gather data_ n top) =
                    ap (λ l. length (gather data_ l top)) (sym n_to) in
                  ground (arith, n_to, in_, few, g, g', sum)
              | inr on ↦
                  let r =
                    degrade_loop_found max_level percent n top total unhealthy to small p
                      (omega (arith, le)) (omega (arith, room, s)) (omega (arith, sum, g))
                      (rw on at f') in
                  (r.0, (omega (arith, r.1.0), r.1.1))
            ]
      ]
