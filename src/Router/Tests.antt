-- ===== src/Router/Tests.antt =====
-- Routers at concrete instances, with numbers for strings.
use polaris_cpp.Base.{
  All, ℕ, true, false, some, List, [], ◌∷◌, ◌≡◌, ◌≢◌, refl, arith, nat_key, ◌⊎◌, lookup, ◌&&◌, ◌==◌,
  ◌≤◌, ℕ_discrete,
}
use polaris_cpp.Router.Instances.{Instance, count, tier, first_tier, filter, healthy}
use polaris_cpp.Router.Metadata.{
  failover_not_key, metadata_match, metadata_loop, metadata_match_not_key, not_key_loop,
  calculate_result, calculate_result-tiers,
}
use polaris_cpp.Router.Canary.{
  kind_with_value, calculate_with_value, calculate_without_value, calculate_with_value-tiers,
}
use polaris_cpp.Router.Canary.NeverEmpty.{canary_never_empty}
use polaris_cpp.Router.NearbyConfig.{
  Location, NearbyRouterConfig, Settings, Names, init, init_nearby_match_level, init_degrade_config,
  str_to_match_level,
}
use polaris_cpp.Router.Nearby.{
  calculate_set, fresh_data, set_loop, push_instance, level_of, match_loop, degrade_loop, gather,
  nearest,
}
use polaris_cpp.Router.Nearby.Promise.{nearby_never_empty, nearby-Serves}
use polaris_cpp.Router.Nearby

abbrev instance_at : ℕ → List (ℕ × ℕ) → ℕ → ℕ → Instance ℕ
instance_at address metadata region zone = record {
  address = address;
  metadata = metadata;
  region = region;
  zone = zone;
  campus = 0;
}

-- Keys 1 and 2; "canary" is 1. The region and the zone of the client are 7 and 8.
abbrev fleet : List (Instance ℕ)
fleet =
    instance_at 10 ((1, 5) ∷ []) 7 9
    ∷ instance_at 11 ((2, 6) ∷ []) 7 8
    ∷ instance_at 12 ((1, 4) ∷ (2, 3) ∷ []) 7 8
    ∷ []

calculate_result-tiers_example :
    calculate_result fleet (11 ∷ []) ((1, 9) ∷ []) failover_not_key
    ≡ first_tier (
        tier [] false
        ∷ tier [] true
        ∷ tier [] false
        ∷ tier (instance_at 11 ((2, 6) ∷ []) 7 8 ∷ []) true
        ∷ [])
unfolding metadata_match metadata_loop metadata_match_not_key not_key_loop lookup count ℕ_discrete
calculate_result-tiers_example =
    calculate_result-tiers fleet (11 ∷ []) ((1, 9) ∷ []) failover_not_key

canary_degrades :
    calculate_with_value 1 fleet 5 (10 ∷ [])
    ≡ record { result = instance_at 11 ((2, 6) ∷ []) 7 8 ∷ []; degraded = true }
unfolding kind_with_value lookup count ℕ_discrete
canary_degrades = calculate_with_value-tiers 1 fleet 5 (10 ∷ [])

canary_never_empty_example :
    ((calculate_without_value 1 fleet (10 ∷ 11 ∷ 12 ∷ [])).result ≢ [])
    × ((calculate_with_value 1 fleet 5 (10 ∷ 11 ∷ 12 ∷ [])).result ≢ [])
canary_never_empty_example = canary_never_empty 1 fleet 5 (10 ∷ 11 ∷ 12 ∷ []) (λ e. cc)

abbrev names : Names ℕ
names = record { none_ = 0; region_ = 1; zone_ = 2; campus_ = 3 }

abbrev settings : Settings ℕ
settings = record {
  match_level = 2;
  max_match_level = 1;
  strict_nearby = false;
  enable_degrade = true;
  percent = 70;
  recover_all = true;
}

abbrev config : NearbyRouterConfig
config = record {
  match_level_ = 2;
  max_match_level_ = 1;
  strict_nearby_ = false;
  enable_degrade_by_unhealthy_percent_ = true;
  unhealthy_percent_to_degrade_ = 70;
  enable_recover_all_ = true;
}

accepted : init names settings ≡ some config
unfolding init init_nearby_match_level init_degrade_config str_to_match_level ℕ_discrete
accepted = refl

abbrev location : Location ℕ
location = record { region = 7; zone = 8; campus = 0 }

abbrev unhealthy_set : List ℕ
unhealthy_set = 11 ∷ 12 ∷ []

nearby_never_empty_example :
    (Nearby.calculate_result config
      (calculate_set config location (fresh_data config) fleet unhealthy_set)).0.result
    ≢ []
unfolding level_of ℕ_discrete
nearby_never_empty_example =
    nearby_never_empty names settings config accepted location fleet unhealthy_set (omega arith)
      refl (λ e. cc)

nearby-Serves_example :
    (let r =
        Nearby.calculate_result config
          (calculate_set config location (fresh_data config) fleet unhealthy_set) in
      All (λ i. (1 ≤ level_of 2 location i) × (healthy unhealthy_set i ≡ true)) r.0.result
      ⊎ (All (λ i. (1 ≤ level_of 2 location i) × (healthy unhealthy_set i ≡ false)) r.0.result
          × ((true ≡ true)
              × (filter (λ i. (r.1 == level_of 2 location i) && healthy unhealthy_set i) fleet
                  ≡ []))))
nearby-Serves_example =
    nearby-Serves names settings config accepted location fleet unhealthy_set (omega arith)

-- Both instances of the zone are unhealthy, and the region has a healthy one.
degraded_to_region :
    Nearby.calculate_result config
      (calculate_set config location (fresh_data config) fleet unhealthy_set)
    ≡ (record { result = instance_at 10 ((1, 5) ∷ []) 7 9 ∷ []; degraded = true }, 2)
unfolding Nearby.calculate_result set_loop push_instance level_of match_loop degrade_loop gather
    nearest count ℕ_discrete
degraded_to_region = refl
