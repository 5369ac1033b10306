-- ===== src/Router/Metadata.antt =====
-- polaris/plugin/service_router/metadata_router.cpp: MetadataServiceRouter, whose calculation the
-- route cache keeps.
use polaris_cpp.Base.{
  ℕ, ltb, Bool, true, false, none, some, List, [], ◌∷◌, length, Key, lookup, if◌then◌else◌, ◌≡◌,
  refl, not, ◌&&◌,
}
use polaris_cpp.Router.Instances.{
  Instance, is_empty, same, filter, healthy, Choice, Tier, tier, first_tier, Split, split,
  split_filters,
}

pub data MetadataFailoverType : Type 0 where
  failover_none failover_all failover_not_key : MetadataFailoverType

module _ {S : Type 0} ⦃key : Key S⦄ where
  -- The loop of MetadataMatch.
  unfoldable pub metadata_loop : List (S × S) → List (S × S) → Bool
  metadata_loop [] instance_metadata = true
  metadata_loop ((k, v) ∷ metadata) instance_metadata =
      let rest = metadata_loop metadata instance_metadata in
      elim (lookup k instance_metadata) [ none ↦ false | some w ↦ if same v w then rest else false ]

  unfoldable pub metadata_match : List (S × S) → List (S × S) → Bool
  metadata_match metadata instance_metadata =
      if ltb (length instance_metadata) (length metadata)
      then false
      else metadata_loop metadata instance_metadata

  -- The loop of MetadataMatchNotKey.
  unfoldable pub not_key_loop : List (S × S) → List (S × S) → Bool
  not_key_loop [] instance_metadata = true
  not_key_loop ((k, _) ∷ metadata) instance_metadata =
      let rest = not_key_loop metadata instance_metadata in
      elim (lookup k instance_metadata) [ some _ ↦ false | none ↦ rest ]

  unfoldable pub metadata_match_not_key : List (S × S) → List (S × S) → Bool
  metadata_match_not_key metadata instance_metadata =
      if is_empty instance_metadata then true else not_key_loop metadata instance_metadata

  unfoldable pub failover : Split S → Choice S
  failover s =
      if not (is_empty s.healthy_)
      then record { result = s.healthy_; degraded = false }
      else if not (is_empty s.unhealthy_)
      then record { result = s.unhealthy_; degraded = true }
      else record { result = []; degraded = false }

  unfoldable pub failover_all_instances : List (Instance S) → List ℕ → Choice S
  failover_all_instances instances unhealthy_set =
      failover (split unhealthy_set (λ i. true) instances)

  unfoldable pub failover_without_key : List (Instance S) → List ℕ → List (S × S) → Choice S
  failover_without_key instances unhealthy_set metadata =
      failover (split unhealthy_set (λ i. metadata_match_not_key metadata i.metadata) instances)

  unfoldable pub calculate_result :
      List (Instance S) → List ℕ → List (S × S) → MetadataFailoverType → Choice S
  calculate_result instances unhealthy_set metadata failover_type =
      let s = split unhealthy_set (λ i. metadata_match metadata i.metadata) instances in
      if not (is_empty s.healthy_)
      then record { result = s.healthy_; degraded = false }
      else if not (is_empty s.unhealthy_)
      then record { result = s.unhealthy_; degraded = true }
      else elim failover_type [
        | failover_all ↦ failover_all_instances instances unhealthy_set
        | failover_not_key ↦ failover_without_key instances unhealthy_set metadata
        | failover_none ↦ record { result = []; degraded = false }
      ]

  -- The tiers that a failover adds.
  abbrev failover_tiers :
      List (Instance S) → List ℕ → List (S × S) → MetadataFailoverType → List (Tier S)
  failover_tiers instances unhealthy_set metadata failover_none = []
  failover_tiers instances unhealthy_set metadata failover_all =
      tier (filter (healthy unhealthy_set) instances) false
      ∷ tier (filter (λ i. not (healthy unhealthy_set i)) instances) true
      ∷ []
  failover_tiers instances unhealthy_set metadata failover_not_key =
      tier
        (filter (λ i. metadata_match_not_key metadata i.metadata && healthy unhealthy_set i)
          instances)
        false
      ∷ tier
          (filter (λ i. metadata_match_not_key metadata i.metadata && not (healthy unhealthy_set i))
            instances)
          true
      ∷ []

  failover-tiers :
      (hs us : List (Instance S))
      → failover (record { healthy_ = hs; unhealthy_ = us })
        ≡ first_tier (tier hs false ∷ tier us true ∷ [])
  unfolding failover
  failover-tiers [] [] = refl
  failover-tiers [] (u ∷ us) = refl
  failover-tiers (h ∷ hs) us = refl

  two_tiers :
      (hs us : List (Instance S)) (rest : Choice S) (tiers : List (Tier S))
      → rest ≡ first_tier tiers
      → (if not (is_empty hs)
          then record { result = hs; degraded = false }
          else if not (is_empty us)
          then record { result = us; degraded = true }
          else rest)
        ≡ first_tier (tier hs false ∷ tier us true ∷ tiers)
  two_tiers [] [] rest tiers e = e
  two_tiers [] (u ∷ us) rest tiers e = refl
  two_tiers (h ∷ hs) us rest tiers e = refl

  -- The calculation returns the first of these that has an instance, in their order: the healthy
  -- instances whose metadata match, the unhealthy ones that match, and, with a failover, the healthy
  -- and the unhealthy ones of all instances or of those without the keys. It says that it degraded
  -- when it returns unhealthy ones, and otherwise returns nothing.
  pub calculate_result-tiers :
      (instances : List (Instance S)) (unhealthy_set : List ℕ) (metadata : List (S × S))
      (failover_type : MetadataFailoverType)
      → calculate_result instances unhealthy_set metadata failover_type
        ≡ first_tier (
            tier
              (filter
                (λ i. metadata_match metadata i.metadata && healthy unhealthy_set i)
                instances)
              false
            ∷ tier
                (filter
                  (λ i. metadata_match metadata i.metadata && not (healthy unhealthy_set i))
                  instances)
                true
            ∷ failover_tiers instances unhealthy_set metadata failover_type)
  unfolding calculate_result failover_all_instances failover_without_key
  calculate_result-tiers instances unhealthy_set metadata failover_none =
      rw (split_filters unhealthy_set (λ i. metadata_match metadata i.metadata) instances)
        (two_tiers _ _ _ [] refl)
  calculate_result-tiers instances unhealthy_set metadata failover_all =
      rw (split_filters unhealthy_set (λ i. metadata_match metadata i.metadata) instances) (
        two_tiers _ _ _ (failover_tiers instances unhealthy_set metadata failover_all)
          (rw (split_filters unhealthy_set (λ i. true) instances) (failover-tiers _ _)))
  calculate_result-tiers instances unhealthy_set metadata failover_not_key =
      rw (split_filters unhealthy_set (λ i. metadata_match metadata i.metadata) instances) (
        two_tiers _ _ _ (failover_tiers instances unhealthy_set metadata failover_not_key) (
          rw
            (split_filters unhealthy_set (λ i. metadata_match_not_key metadata i.metadata)
              instances)
            (failover-tiers _ _)))
