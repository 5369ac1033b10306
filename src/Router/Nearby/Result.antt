-- ===== src/Router/Nearby/Result.antt =====
-- The outcomes of CalculateResult on the levels of a cluster.
use polaris_cpp.Base.{
  ℕ, ◌≤◌, ◌<◌, true, false, Option, some, List, [], ◌∷◌, length, leb, if◌then◌else◌, ◌&&◌, ◌≡◌,
  refl, arith, inl, inr, Bool-cases, Option-cases, mul64,
}
use polaris_cpp.Router.NearbyConfig.{NearbyRouterConfig, IsValid}
use polaris_cpp.Router.Instances.{is_empty}
use polaris_cpp.Router.Nearby.{
  NearbyRouterSet, at, size_at, match_loop, degrade_loop, gather, nearest, calculate_result,
}
use polaris_cpp.Router.Nearby.Loops.{
  Small, instances_at, size_exact, match_loop_le, match_loop_found, degrade_loop_found,
  gather_level,
}

pub empty_length :
    {A : Type 0} (xs : List A) → (if is_empty xs then length xs ≡ 0 else 0 < length xs)
empty_length [] = refl
empty_length (x ∷ xs) = omega arith

module _ {S : Type 0} (config : NearbyRouterConfig) (data_ : List (NearbyRouterSet S)) where
  nearest_some :
      (level : ℕ)
      → config.enable_recover_all_ ≡ true
      → 0 < instances_at data_ level
      → 0 < length (nearest config data_ level).result
  unfolding nearest
  nearest_some level r pos = elim (Bool-cases (is_empty (at data_ level).healthy_)) [
    | inl e ↦
        let z : length (at data_ level).healthy_ ≡ 0 =
          rw e at (empty_length (at data_ level).healthy_) in
        rw (e, r) (omega (arith, z, pos))
    | inr e ↦ rw e (rw e at (empty_length (at data_ level).healthy_))
  ]

  -- The level that CalculateResult matches.
  abbrev pub level : ℕ
  level = match_loop data_ config.max_match_level_ config.match_level_

  abbrev pub degrades : Option ℕ
  degrades =
      degrade_loop data_ config.max_match_level_ config.unhealthy_percent_to_degrade_ level
        (size_at data_ level) (length (at data_ level).unhealthy_)

  -- The three results: none, those of the nearest level, and those of several levels.
  pub data Outcome : Type 0 where
    nothing_there :
        instances_at data_ level ≡ 0
        → calculate_result config data_ ≡ (record { result = []; degraded = false }, level)
        → Outcome
    near : calculate_result config data_ ≡ (nearest config data_ level, level) → Outcome
    gathered :
        (to : ℕ)
        → config.max_match_level_ ≤ to
        → 0 < length (gather data_ to level)
        → calculate_result config data_
          ≡ (record { result = gather data_ to level; degraded = true }, level)
        → Outcome

  degrades_found :
      (to : ℕ)
      → IsValid config
      → Small data_
      → degrades ≡ some to
      → (config.max_match_level_ ≤ to) × (0 < length (gather data_ to level))
  degrades_found to valid small e =
      let le = match_loop_le data_ config.max_match_level_ config.match_level_ in
      let size = size_exact data_ level small in
      let r =
        degrade_loop_found data_ config.max_match_level_ config.unhealthy_percent_to_degrade_ level
          level (size_at data_ level) (length (at data_ level).unhealthy_) to small
          valid.percent_most (omega arith) (omega (arith, size, small level, le, valid.most))
          (omega (arith, size, gather_level data_ level)) e in
      (r.0, r.1.1)

  pub outcome : IsValid config → Small data_ → Outcome
  unfolding calculate_result
  outcome valid small =
      let size = size_exact data_ level small in
      elim (Bool-cases (leb (size_at data_ level) 0)) [
        | inl e ↦ nothing_there (ground (arith, e, size)) (rw e refl)
        | inr e ↦
            elim (Bool-cases (
              config.enable_degrade_by_unhealthy_percent_
              && leb (mul64 (size_at data_ level) config.unhealthy_percent_to_degrade_)
                  (mul64 (length (at data_ level).unhealthy_) 100))) [
                    | inl f ↦ elim (Option-cases degrades) [
                      | inl g ↦ near (rw (e, f, g) refl)
                      | inr (to, g) ↦
                          let r = degrades_found to valid small g in
                          gathered to r.0 r.1 (rw (e, f, g) refl)
                    ]
                    | inr f ↦ near (rw (e, f) refl)
                  ]
      ]

  -- With the recovery of unhealthy instances enabled, some level with an instance makes a result.
  pub result_some :
      (k : ℕ)
      → IsValid config
      → Small data_
      → config.enable_recover_all_ ≡ true
      → config.max_match_level_ ≤ k
      → k ≤ config.match_level_
      → 0 < instances_at data_ k
      → 0 < length (calculate_result config data_).0.result
  result_some k valid small r lo hi pos =
      let found =
        match_loop_found data_ config.max_match_level_ config.match_level_ k small lo hi pos in
      elim (outcome valid small) [
        | nothing_there z e ↦ ground (arith, z, found)
        | near e ↦ rw e (nearest_some level r found)
        | gathered to lo' some_ e ↦ rw e some_
      ]
