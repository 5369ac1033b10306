-- ===== src/Router/NearbyConfig.antt =====
-- polaris/plugin/service_router/nearby_router.{h,cpp}: NearbyRouterConfig, and what the router makes
-- of a client's location. A match level is its number: 0 for none, 1 region, 2 zone, 3 campus.
use polaris_cpp.Base.{
  ℕ, ◌≤◌, ◌<◌, Bool, true, false, Option, none, some, Key, ltb, leb, ◌==◌, if◌then◌else◌, ◌&&◌, ◌≡◌,
  arith, inl, inr, Option-cases,
}
use polaris_cpp.Router.Instances.{same}

pub record Location (S : Type 0) : Type 0 where
  pub region : S
  pub zone : S
  pub campus : S

pub record NearbyRouterConfig : Type 0 where
  pub match_level_ : ℕ
  pub max_match_level_ : ℕ
  pub strict_nearby_ : Bool
  pub enable_degrade_by_unhealthy_percent_ : Bool
  pub unhealthy_percent_to_degrade_ : ℕ
  pub enable_recover_all_ : Bool

-- The values that the configuration file gives, or their defaults; a nonpositive percentage is 0.
pub record Settings (S : Type 0) : Type 0 where
  pub match_level : S
  pub max_match_level : S
  pub strict_nearby : Bool
  pub enable_degrade : Bool
  pub percent : ℕ
  pub recover_all : Bool

-- The names of the levels.
pub record Names (S : Type 0) : Type 0 where
  pub none_ : S
  pub region_ : S
  pub zone_ : S
  pub campus_ : S

module _ {S : Type 0} ⦃key : Key S⦄ (names : Names S) where
  unfoldable pub str_to_match_level : S → Option ℕ
  str_to_match_level str =
      if same str names.region_
      then some 1
      else if same str names.zone_
      then some 2
      else if same str names.campus_
      then some 3
      else if same str names.none_
      then some 0
      else none

  unfoldable pub init_nearby_match_level : Settings S → Option (ℕ × ℕ)
  init_nearby_match_level s = elim (str_to_match_level s.match_level) [
    | none ↦ none
    | some m ↦ elim (str_to_match_level s.max_match_level) [
      | none ↦ none
      | some n ↦ if ltb m n then none else some (m, n)
    ]
  ]

  -- InitDegradeConfig's test.
  unfoldable pub init_degrade_config : Settings S → Option (Bool × ℕ)
  init_degrade_config s =
      if leb s.percent 0
      then none
      else if ltb 100 s.percent
      then none
      else some (s.enable_degrade, s.percent)

  -- Init, with the steps that only copy a value.
  unfoldable pub init : Settings S → Option NearbyRouterConfig
  init s = elim (init_nearby_match_level s) [
    | none ↦ none
    | some levels ↦ elim (init_degrade_config s) [
      | none ↦ none
      | some degrade ↦ some (record {
        match_level_ = levels.0;
        max_match_level_ = levels.1;
        strict_nearby_ = s.strict_nearby;
        enable_degrade_by_unhealthy_percent_ = degrade.0;
        unhealthy_percent_to_degrade_ = degrade.1;
        enable_recover_all_ = s.recover_all;
      })
    ]
  ]

  -- GetLocationByMatchLevel, with the empty string of `clear`.
  unfoldable pub get_location_by_match_level : S → Location S → ℕ → S × S
  get_location_by_match_level empty location level =
      if level == 1
      then (names.region_, location.region)
      else if level == 2
      then (names.zone_, location.zone)
      else if level == 3
      then (names.campus_, location.campus)
      else (names.none_, empty)

  -- CheckLocation.
  unfoldable pub check_location : S → NearbyRouterConfig → Location S → Bool
  check_location empty config location =
      if ltb 0 config.match_level_ && same location.region empty
      then false
      else if ltb 1 config.match_level_ && same location.zone empty
      then false
      else if ltb 2 config.match_level_ && same location.campus empty
      then false
      else true

-- What Init accepts.
pub record IsValid (config : NearbyRouterConfig) : Type 0 where
  pub most : config.match_level_ ≤ 3
  pub order : config.max_match_level_ ≤ config.match_level_
  pub percent_pos : 0 < config.unhealthy_percent_to_degrade_
  pub percent_most : config.unhealthy_percent_to_degrade_ ≤ 100

module _ {S : Type 0} ⦃key : Key S⦄ (names : Names S) where
  level_bound : (str : S) (m : ℕ) → str_to_match_level names str ≡ some m → m ≤ 3
  unfolding str_to_match_level
  level_bound str m e = ground (arith, e)

  levels_valid :
      (s : Settings S) (levels : ℕ × ℕ)
      → init_nearby_match_level names s ≡ some levels
      → (levels.0 ≤ 3) × (levels.1 ≤ levels.0)
  unfolding init_nearby_match_level
  levels_valid s levels e = elim (Option-cases (str_to_match_level names s.match_level)) [
    | inl g ↦ ground (arith, e, g)
    | inr (m, g) ↦ elim (Option-cases (str_to_match_level names s.max_match_level)) [
      | inl f ↦ ground (arith, e, g, f)
      | inr (n, f) ↦ ground (arith, e, g, f, level_bound s.match_level m g)
    ]
  ]

  degrade_valid :
      (s : Settings S) (degrade : Bool × ℕ)
      → init_degrade_config names s ≡ some degrade
      → (0 < degrade.1) × (degrade.1 ≤ 100)
  unfolding init_degrade_config
  degrade_valid s degrade e = ground (arith, e)

  -- A configuration that Init accepts has a match level of at most the campus, a maximal level that
  -- is not finer, and a percentage above 0 and up to 100.
  pub init-IsValid :
      (s : Settings S) (config : NearbyRouterConfig) → init names s ≡ some config → IsValid config
  unfolding init
  init-IsValid s config e = elim (Option-cases (init_nearby_match_level names s)) [
    | inl g ↦ ground (arith, e, g)
    | inr (levels, g) ↦ elim (Option-cases (init_degrade_config names s)) [
      | inl f ↦ ground (arith, e, g, f)
      | inr (degrade, f) ↦
          let l = levels_valid s levels g in
          let d = degrade_valid s degrade f in
          record {
            most = ground (arith, e, g, f, l.0);
            order = ground (arith, e, g, f, l.1);
            percent_pos = ground (arith, e, g, f, d.0);
            percent_most = ground (arith, e, g, f, d.1);
          }
    ]
  ]
