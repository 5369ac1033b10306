-- ===== src/LoadBalancer/WeightedRandom/Shares.antt =====
-- How many random values choose an instance.
use polaris_cpp.Base.{
  ℕ, zero, suc, ◌+◌, ◌^◌, ◌≤◌, ◌<◌, Bool, true, false, Option, none, some, List, [], ◌∷◌, ◌++◌,
  ◌==◌, if◌then◌else◌, not, ◌&&◌, add32, lt_int, ◌≡◌, refl, sym, ap, ◌∙◌, arith, inl, inr,
  Bool-cases,
}
use mathlib.Core.List.{append-nil, append_assoc}
use polaris_cpp.LoadBalancer.Counting.{count_from, count_split}
use polaris_cpp.LoadBalancer.WeightedRandom.{
  WeightInstance, RandomLbCacheValue, count, push_weighted, normal_loop, half_open_loop,
  build_value, upper_bound,
}

-- Whether an answer is the instance.
abbrev pub is_instance : ℕ → Option ℕ → Bool
is_instance i none = false
is_instance i (some j) = j == i

module _ (weight : ℕ → ℕ) where
  -- The entries of a list of instances above a sum, and their weights altogether.
  abbrev pub cumulative : ℕ → List ℕ → List WeightInstance
  cumulative sum [] = []
  cumulative sum (i ∷ is) =
      record { weight_ = sum + weight i; instance_ = i } ∷ cumulative (sum + weight i) is

  abbrev pub total : List ℕ → ℕ
  total [] = 0
  total (i ∷ is) = weight i + total is

  -- The weight of all occurrences of an instance.
  abbrev pub share : ℕ → List ℕ → ℕ
  share i [] = 0
  share i (j ∷ is) = (if j == i then weight j else 0) + share i is

  -- The instances that the loop takes.
  abbrev pub usable : (ℕ → Bool) → List ℕ → List ℕ
  usable p [] = []
  usable p (i ∷ is) =
      let rest = usable p is in if p i && lt_int 0 (weight i) then i ∷ rest else rest

  -- The values below the first entry choose it.
  head_count :
      (i j sum from n : ℕ) (ws : List WeightInstance)
      → from + n ≤ sum
      → sum < 2 ^ 31
      → count_from
          (λ r. is_instance i (upper_bound (record { weight_ = sum; instance_ = j } ∷ ws) r))
          from
          n
        ≡ (if j == i then n else 0)
  unfolding upper_bound
  head_count i j sum from zero ws le small = ground arith
  head_count i j sum from (suc n) ws le small =
      let e : lt_int from sum ≡ true = ground (arith, le, small) in
      rw e (ground (arith, head_count i j sum (suc from) n ws (omega (arith, le)) small))

  -- The others go on to the rest.
  tail_count :
      (i j sum from n : ℕ) (ws : List WeightInstance)
      → sum ≤ from
      → from + n ≤ 2 ^ 31
      → count_from
          (λ r. is_instance i (upper_bound (record { weight_ = sum; instance_ = j } ∷ ws) r))
          from
          n
        ≡ count_from (λ r. is_instance i (upper_bound ws r)) from n
  unfolding upper_bound
  tail_count i j sum from zero ws le small = refl
  tail_count i j sum from (suc n) ws le small =
      let e : lt_int from sum ≡ false = ground (arith, le, small) in
      rw (e, tail_count i j sum (suc from) n ws (omega (arith, le)) (omega (arith, small))) refl

  pub share_count :
      (i sum : ℕ) (is : List ℕ)
      → sum + total is < 2 ^ 31
      → count_from (λ r. is_instance i (upper_bound (cumulative sum is) r)) sum (total is)
        ≡ share i is
  share_count i sum [] small = refl
  share_count i sum (j ∷ is) small =
      let top : ℕ = sum + weight j in
      let p : ℕ → Bool = λ r. is_instance i (upper_bound (cumulative sum (j ∷ is)) r) in
      let h =
        head_count i j top sum (weight j) (cumulative top is) (omega arith)
          (omega (arith, small)) in
      let t =
        tail_count i j top top (total is) (cumulative top is) (omega arith)
          (omega (arith, small)) in
      let ih = share_count i top is (omega (arith, small)) in
      count_split p sum (weight j) (total is) ∙ omega (arith, h, t, ih)

  -- What the loops build, as long as the sum stays an `int`.
  abbrev after : RandomLbCacheValue → List ℕ → RandomLbCacheValue
  after v is = record v {
    sum_weight_ = v.sum_weight_ + total is;
    weight_instances_ = v.weight_instances_ ++ cumulative v.sum_weight_ is;
  }

  after-push :
      (v : RandomLbCacheValue) (i : ℕ) (is : List ℕ)
      → v.sum_weight_ + total (i ∷ is) < 2 ^ 31
      → after (push_weighted weight v i) is ≡ after v (i ∷ is)
  after-push v i is small =
      let e : add32 v.sum_weight_ (weight i) ≡ v.sum_weight_ + weight i = omega (arith, small) in
      let f : v.sum_weight_ + weight i + total is ≡ v.sum_weight_ + (weight i + total is) =
        omega arith in
      rw
        (
          e,
          f,
          append_assoc v.weight_instances_
              (record { weight_ = v.sum_weight_ + weight i; instance_ = i } ∷ [])
              (cumulative (v.sum_weight_ + weight i) is),
        )
        refl

  after-nil : (v : RandomLbCacheValue) → after v [] ≡ v
  after-nil v =
      let e : v.sum_weight_ + 0 ≡ v.sum_weight_ = omega arith in
      rw (append-nil v.weight_instances_) (ap (λ s. record v { sum_weight_ = s }) e)

  normal_loop-after :
      (v : RandomLbCacheValue) (is : List ℕ)
      → v.sum_weight_ + total (usable (λ i. not (count i v.half_open_instances_)) is) < 2 ^ 31
      → normal_loop weight v is ≡ after v (usable (λ i. not (count i v.half_open_instances_)) is)
  unfolding normal_loop
  normal_loop-after v [] small = sym (after-nil v)
  normal_loop-after v (i ∷ is) small =
      elim (Bool-cases (not (count i v.half_open_instances_) && lt_int 0 (weight i))) [
        | inl e ↦
            let fits = rw e at small in
            rw e (
              normal_loop-after (push_weighted weight v i) is (omega (arith, fits))
              ∙ after-push v i (usable (λ i. not (count i v.half_open_instances_)) is) fits)
        | inr e ↦ rw e (normal_loop-after v is (rw e at small))
      ]

  half_open_loop-after :
      (v : RandomLbCacheValue) (is : List ℕ)
      → v.sum_weight_ + total (usable (λ i. true) is) < 2 ^ 31
      → half_open_loop weight v is ≡ after v (usable (λ i. true) is)
  unfolding half_open_loop
  half_open_loop-after v [] small = sym (after-nil v)
  half_open_loop-after v (i ∷ is) small = elim (Bool-cases (lt_int 0 (weight i))) [
    | inl e ↦
        let fits = rw e at small in
        rw e (
          half_open_loop-after (push_weighted weight v i) is (omega (arith, fits))
          ∙ after-push v i (usable (λ i. true) is) fits)
    | inr e ↦ rw e (half_open_loop-after v is (rw e at small))
  ]

  usable_none : (p : ℕ → Bool) (is : List ℕ) → total (usable p is) ≡ 0 → usable p is ≡ []
  usable_none p [] z = refl
  usable_none p (i ∷ is) z = elim (Bool-cases (p i && lt_int 0 (weight i))) [
    | inl e ↦ ground (arith, e, rw e at z)
    | inr e ↦ rw e (usable_none p is (rw e at z))
  ]

  -- The instances that share the values: the normal ones of positive weight, and if there are none
  -- the half-open ones of positive weight.
  abbrev pub normal : List ℕ → List ℕ → List ℕ
  normal instances half_open = usable (λ i. not (count i half_open)) instances

  abbrev pub sharing : List ℕ → List ℕ → List ℕ
  sharing instances half_open =
      if total (normal instances half_open) == 0
      then usable (λ i. true) half_open
      else normal instances half_open

  pub build_value-sharing :
      (instances half_open : List ℕ)
      → total (normal instances half_open) < 2 ^ 31
      → total (usable (λ i. true) half_open) < 2 ^ 31
      → build_value weight instances half_open ≡ record {
        half_open_instances_ = half_open;
        sum_weight_ = total (sharing instances half_open);
        weight_instances_ = cumulative 0 (sharing instances half_open);
      }
  unfolding build_value
  build_value-sharing instances half_open n h =
      let v : RandomLbCacheValue = record {
        half_open_instances_ = half_open;
        sum_weight_ = 0;
        weight_instances_ = [];
      } in
      let l = normal_loop-after v instances (omega (arith, n)) in
      let t : 0 + total (normal instances half_open) ≡ total (normal instances half_open) =
        omega arith in
      rw (l, t)
        (elim (Bool-cases (total (normal instances half_open) == 0)) [
          | inl e ↦
              let z : total (normal instances half_open) ≡ 0 = ground (arith, e) in
              let nil = usable_none (λ i. not (count i half_open)) instances z in
              let f : 0 + total (usable (λ i. true) half_open)
                  ≡ total (usable (λ i. true) half_open) =
                omega arith in
              rw (e, nil)
                (half_open_loop-after v half_open (omega (arith, h))
                  ∙ ap
                      (λ t. record {
                        half_open_instances_ = half_open;
                        sum_weight_ = t;
                        weight_instances_ = cumulative 0 (usable (λ i. true) half_open);
                      })
                      f)
          | inr e ↦ rw e refl
        ])
