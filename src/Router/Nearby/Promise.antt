-- ===== src/Router/Nearby/Promise.antt =====
-- What NearbyRouterCluster gives for a location, from CalculateSet to CalculateResult.
use polaris_cpp.Base.{
  ℕ, zero, suc, ◌+◌, ◌^◌, ◌≤◌, ◌<◌, Bool, true, false, some, List, [], ◌∷◌, length, leb, ◌==◌, not,
  ◌&&◌, ◌≡◌, ◌≢◌, ◌⊎◌, refl, sym, ap, ◌∙◌, arith, inl, inr, Bool-cases, Key, All, All-append,
}
use polaris_cpp.Router.NearbyConfig.{
  Location, NearbyRouterConfig, Names, Settings, init, init-IsValid,
}
use polaris_cpp.Router.Instances.{Instance, healthy, filter, is_empty}
use polaris_cpp.Router.Nearby.{
  NearbyRouterSet, fresh_data, at, level_of, calculate_set, gather, nearest, calculate_result,
}
use polaris_cpp.Router.Nearby.Levels.{level_set, set_loop-fresh, level_of_le}
use polaris_cpp.Router.Nearby.Loops.{Small, instances_at, match_loop_least}
use polaris_cpp.Router.Nearby.Result.{nothing_there, near, gathered, outcome, result_some, level}

module _ {A : Type 0} where
  pub length-filter : (p : A → Bool) (xs : List A) → length (filter p xs) ≤ length xs
  length-filter p [] = omega arith
  length-filter p (x ∷ xs) = ground (arith, length-filter p xs)

  All-filter :
      (P : A → Type 0) (p : A → Bool) (xs : List A)
      → ((x : A) → p x ≡ true → P x)
      → All P (filter p xs)
  All-filter P p [] h = tt
  All-filter P p (x ∷ xs) h = elim (Bool-cases (p x)) [
    | inl e ↦ rw e (h x e, All-filter P p xs h)
    | inr e ↦ rw e (All-filter P p xs h)
  ]

module _ {S : Type 0} (unhealthy_set : List ℕ) (level : Instance S → ℕ) where
  level_split :
      (k : ℕ) (is : List (Instance S))
      → length (level_set unhealthy_set level k is).healthy_
          + length (level_set unhealthy_set level k is).unhealthy_
        ≡ length (filter (λ i. k == level i) is)
  level_split k [] = refl
  level_split k (i ∷ is) = ground (arith, level_split k is)

  -- An instance at a level that is fine enough, if there is one.
  some_level :
      (least : ℕ) (is : List (Instance S))
      → filter (λ i. leb least (level i)) is ≢ []
      → (i : Instance S) × ((least ≤ level i) × (0 < length (filter (λ j. level i == level j) is)))
  some_level least [] n = elim (n refl) [ ]
  some_level least (i ∷ is) n = elim (Bool-cases (leb least (level i))) [
    | inl e ↦ (i, (ground (arith, e), ground arith))
    | inr e ↦ let r = some_level least is (rw e at n) in (r.0, (r.1.0, ground (arith, r.1.1)))
  ]

module _ {S : Type 0} (data_ : List (NearbyRouterSet S)) (P : Instance S → Type 0) where
  gather-All :
      (to top : ℕ)
      → ((k : ℕ) → to ≤ k → k ≤ top → All P (at data_ k).healthy_)
      → All P (gather data_ to top)
  unfolding gather
  gather-All to zero h = elim (Bool-cases (leb to 0)) [
    | inl e ↦ rw e (h 0 (ground (arith, e)) (omega arith))
    | inr e ↦ rw e tt
  ]
  gather-All to (suc top) h = elim (Bool-cases (leb to (suc top))) [
    | inl e ↦ rw e (
        All-append P (at data_ (suc top)).healthy_ (gather data_ to top)
          (h (suc top) (ground (arith, e)) (omega arith))
          (gather-All to top (λ k lo hi. h k lo (omega (arith, hi)))))
    | inr e ↦ rw e tt
  ]

module _ {S : Type 0} ⦃key : Key S⦄ (names : Names S) (s : Settings S) (config : NearbyRouterConfig)
    (accepted : init names s ≡ some config) (location : Location S) (instances : List (Instance S))
    (unhealthy_set : List ℕ) where
  -- The instance's level against the client's location.
  abbrev near_level : Instance S → ℕ
  near_level i = level_of config.match_level_ location i

  abbrev data_of : List (NearbyRouterSet S)
  data_of = calculate_set config location (fresh_data config) instances unhealthy_set

  data_of-at : (k : ℕ) → at data_of k ≡ level_set unhealthy_set near_level k instances
  data_of-at k =
      set_loop-fresh config unhealthy_set near_level instances k
        (λ i. level_of_le config.match_level_ location i)

  instances_of :
      (k : ℕ) → instances_at data_of k ≡ length (filter (λ i. k == near_level i) instances)
  instances_of k =
      ap (λ t. length t.healthy_ + length t.unhealthy_) (data_of-at k)
      ∙ level_split unhealthy_set near_level k instances

  data_of-Small : length instances < 2 ^ 32 → Small data_of
  data_of-Small few k =
      omega (arith, few, instances_of k, length-filter (λ i. k == near_level i) instances)

  -- With a configuration that Init accepts and that lets unhealthy instances recover, and fewer than
  -- 2 ^ 32 instances, a client gets an instance whenever one is as near as the maximal level asks,
  -- however many of them are unhealthy.
  pub nearby_never_empty :
      length instances < 2 ^ 32
      → config.enable_recover_all_ ≡ true
      → filter (λ i. leb config.max_match_level_ (near_level i)) instances ≢ []
      → (calculate_result config data_of).0.result ≢ []
  nearby_never_empty few r n e =
      let i = some_level unhealthy_set near_level config.max_match_level_ instances n in
      let pos =
        result_some config data_of (near_level i.0) (init-IsValid names s config accepted)
          (data_of-Small few) r i.1.0 (level_of_le config.match_level_ location i.0)
          (omega (arith, i.1.1, instances_of (near_level i.0))) in
      ground (arith, pos, ap length e)

  -- What each returned instance satisfies: a level that is near enough, and a flag.
  abbrev Serves : Bool → Instance S → Type 0
  Serves flag i = (config.max_match_level_ ≤ near_level i) × (healthy unhealthy_set i ≡ flag)

  healthy_at : (k : ℕ) → config.max_match_level_ ≤ k → All (Serves true) (at data_of k).healthy_
  healthy_at k lo = rw (data_of-at k) (
      All-filter (Serves true) (λ i. (k == near_level i) && healthy unhealthy_set i) instances
        (λ i e. (ground (arith, e, lo), ground (arith, e))))

  unhealthy_at :
      (k : ℕ) → config.max_match_level_ ≤ k → All (Serves false) (at data_of k).unhealthy_
  unhealthy_at k lo = rw (data_of-at k) (
      All-filter (Serves false) (λ i. (k == near_level i) && not (healthy unhealthy_set i))
        instances (λ i e. (ground (arith, e, lo), ground (arith, e))))

  is_empty-nil : {A : Type 0} (xs : List A) → is_empty xs ≡ true → xs ≡ []
  is_empty-nil [] e = refl
  is_empty-nil (x ∷ xs) e = cc

  nearest-Serves :
      (k : ℕ)
      → config.max_match_level_ ≤ k
      → All (Serves true) (nearest config data_of k).result
        ⊎ (All (Serves false) (nearest config data_of k).result
            × ((config.enable_recover_all_ ≡ true)
                × (filter (λ i. (k == near_level i) && healthy unhealthy_set i) instances ≡ [])))
  unfolding nearest
  nearest-Serves k lo = elim (Bool-cases (is_empty (at data_of k).healthy_)) [
    | inl e ↦ elim (Bool-cases config.enable_recover_all_) [
      | inl r ↦
          let none_ =
            sym (ap (λ t. t.healthy_) (data_of-at k)) ∙ is_empty-nil (at data_of k).healthy_ e in
          rw (e, r) (inr (unhealthy_at k lo, (refl, none_)))
      | inr r ↦ rw (e, r) (inl tt)
    ]
    | inr e ↦ rw e (inl (healthy_at k lo))
  ]

  -- All returned instances are healthy and at a level as near as the maximal level asks, or all are
  -- unhealthy, which happens only if recovery is enabled and the level matched has no healthy one.
  pub nearby-Serves :
      length instances < 2 ^ 32
      → (let r = calculate_result config data_of in
          All (Serves true) r.0.result
          ⊎ (All (Serves false) r.0.result
              × ((config.enable_recover_all_ ≡ true)
                  × (filter (λ i. (r.1 == near_level i) && healthy unhealthy_set i) instances
                      ≡ []))))
  nearby-Serves few =
      let valid = init-IsValid names s config accepted in
      elim (outcome config data_of valid (data_of-Small few)) [
        | nothing_there z e ↦ rw e (inl tt)
        | near e ↦ rw e (
            nearest-Serves (level config data_of)
              (match_loop_least data_of config.max_match_level_ config.match_level_ valid.order))
        | gathered to lo some_ e ↦ rw e (
            inl (
              gather-All data_of (Serves true) to (level config data_of)
                (λ k lo' hi. healthy_at k (omega (arith, lo, lo')))))
      ]
