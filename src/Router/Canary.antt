-- ===== src/Router/Canary.antt =====
-- polaris/plugin/service_router/canary_router.cpp: the two calculations of CanaryServiceRouter,
-- without and with a canary value in the request. The key "canary" is a parameter.
pub mod NeverEmpty
use polaris_cpp.Base.{
  ℕ, Bool, true, false, Option, none, some, List, [], ◌∷◌, Key, lookup, if◌then◌else◌, ◌≡◌, ◌≢◌,
  refl, not, ◌&&◌, length, ◌+◌, arith, inl, inr, Bool-cases, ap, ◌∙◌, sym,
}
use polaris_cpp.Router.Instances.{
  Instance, is_empty, same, filter, healthy, Choice, Tier, tier, first_tier, Split,
}

-- `push_back`. The loops below go on from the first instance, and so add it in front.
abbrev pub push : {S : Type 0} → List ℕ → Instance S → Split S → Split S
push unhealthy_set i s =
    if healthy unhealthy_set i
    then record s { healthy_ = i ∷ s.healthy_ }
    else record s { unhealthy_ = i ∷ s.unhealthy_ }

-- `select_`, `normal_` and `other_` with their healthy and unhealthy vectors; there is no `normal_`
-- without a value.
pub record Vectors (S : Type 0) : Type 0 where
  pub select : Split S
  pub normal : Split S
  pub other : Split S

abbrev pub no_split : {S : Type 0} → Split S
no_split = record { healthy_ = []; unhealthy_ = [] }

abbrev pub no_vectors : {S : Type 0} → Vectors S
no_vectors = record { select = no_split; normal = no_split; other = no_split }

-- The kind of an instance, which names the vectors it goes to.
pub data Kind : Type 0 where
  selected normal_one other_one : Kind

abbrev pub place : {S : Type 0} → List ℕ → Kind → Instance S → Vectors S → Vectors S
place unhealthy_set selected i v = record v { select = push unhealthy_set i v.select }
place unhealthy_set normal_one i v = record v { normal = push unhealthy_set i v.normal }
place unhealthy_set other_one i v = record v { other = push unhealthy_set i v.other }

-- The loop over the instances.
unfoldable pub vectors_of :
    {S : Type 0} → List ℕ → (Instance S → Kind) → List (Instance S) → Vectors S
vectors_of unhealthy_set kind [] = no_vectors
vectors_of unhealthy_set kind (i ∷ is) =
    place unhealthy_set (kind i) i (vectors_of unhealthy_set kind is)

-- `return !result.empty()` after the swaps.
abbrev pub degrade_to : {S : Type 0} → List (Instance S) → Choice S
degrade_to result = record { result = result; degraded = not (is_empty result) }

module _ {S : Type 0} ⦃key : Key S⦄ (canary : S) where
  unfoldable pub kind_without_value : Instance S → Kind
  kind_without_value i = elim (lookup canary i.metadata) [ none ↦ selected | some _ ↦ other_one ]

  unfoldable pub calculate_without_value : List (Instance S) → List ℕ → Choice S
  calculate_without_value instances unhealthy_set =
      let v = vectors_of unhealthy_set kind_without_value instances in
      if not (is_empty v.select.healthy_)
      then record { result = v.select.healthy_; degraded = false }
      else if not (is_empty v.other.healthy_)
      then degrade_to v.other.healthy_
      else if not (is_empty v.select.unhealthy_)
      then degrade_to v.select.unhealthy_
      else if not (is_empty v.other.unhealthy_)
      then degrade_to v.other.unhealthy_
      else degrade_to []

  unfoldable pub kind_with_value : S → Instance S → Kind
  kind_with_value canary_value i = elim (lookup canary i.metadata) [
    | some v ↦ if same v canary_value then selected else other_one
    | none ↦ normal_one
  ]

  unfoldable pub calculate_with_value : List (Instance S) → S → List ℕ → Choice S
  calculate_with_value instances canary_value unhealthy_set =
      let v = vectors_of unhealthy_set (kind_with_value canary_value) instances in
      if not (is_empty v.select.healthy_)
      then record { result = v.select.healthy_; degraded = false }
      else if not (is_empty v.normal.healthy_)
      then degrade_to v.normal.healthy_
      else if not (is_empty v.other.healthy_)
      then degrade_to v.other.healthy_
      else if not (is_empty v.select.unhealthy_)
      then degrade_to v.select.unhealthy_
      else if not (is_empty v.normal.unhealthy_)
      then degrade_to v.normal.unhealthy_
      else if not (is_empty v.other.unhealthy_)
      then degrade_to v.other.unhealthy_
      else degrade_to []

-- An independent description of the vectors: the instances of a kind that are healthy, or not.
abbrev of_kind : Kind → Kind → Bool
of_kind selected selected = true
of_kind normal_one normal_one = true
of_kind other_one other_one = true
of_kind _ _ = false

abbrev pub picked : {S : Type 0} → List ℕ → (Instance S → Kind) → Kind → List (Instance S) → Split S
picked unhealthy_set kind k is = record {
  healthy_ = filter (λ i. of_kind k (kind i) && healthy unhealthy_set i) is;
  unhealthy_ = filter (λ i. of_kind k (kind i) && not (healthy unhealthy_set i)) is;
}

vectors_filters :
    {S : Type 0} (unhealthy_set : List ℕ) (kind : Instance S → Kind) (is : List (Instance S))
    → vectors_of unhealthy_set kind is ≡ record {
      select = picked unhealthy_set kind selected is;
      normal = picked unhealthy_set kind normal_one is;
      other = picked unhealthy_set kind other_one is;
    }
unfolding vectors_of
vectors_filters unhealthy_set kind [] = refl
vectors_filters unhealthy_set kind (i ∷ is) = ground (arith, vectors_filters unhealthy_set kind is)

pub four_tiers :
    {S : Type 0} (a b c d : List (Instance S))
    → (if not (is_empty a)
        then record { result = a; degraded = false }
        else if not (is_empty b)
        then degrade_to b
        else if not (is_empty c)
        then degrade_to c
        else if not (is_empty d)
        then degrade_to d
        else degrade_to [])
      ≡ first_tier (tier a false ∷ tier b true ∷ tier c true ∷ tier d true ∷ [])
four_tiers (x ∷ a) b c d = refl
four_tiers [] (x ∷ b) c d = refl
four_tiers [] [] (x ∷ c) d = refl
four_tiers [] [] [] (x ∷ d) = refl
four_tiers [] [] [] [] = refl

-- The tiers of the six vectors.
pub six_tiers :
    {S : Type 0} (a b c d e f : List (Instance S))
    → (if not (is_empty a)
        then record { result = a; degraded = false }
        else if not (is_empty b)
        then degrade_to b
        else if not (is_empty c)
        then degrade_to c
        else if not (is_empty d)
        then degrade_to d
        else if not (is_empty e)
        then degrade_to e
        else if not (is_empty f)
        then degrade_to f
        else degrade_to [])
      ≡ first_tier
          (tier a false ∷ tier b true ∷ tier c true ∷ tier d true ∷ tier e true ∷ tier f true ∷ [])
six_tiers (x ∷ a) b c d e f = refl
six_tiers [] (x ∷ b) c d e f = refl
six_tiers [] [] (x ∷ c) d e f = refl
six_tiers [] [] [] (x ∷ d) e f = refl
six_tiers [] [] [] [] (x ∷ e) f = refl
six_tiers [] [] [] [] [] (x ∷ f) = refl
six_tiers [] [] [] [] [] [] = refl

module _ {S : Type 0} ⦃key : Key S⦄ (canary : S) where
  -- With a canary value in the request the calculation returns the first of these that has an
  -- instance: the healthy instances with that value, the healthy ones without any, the healthy ones
  -- with another value, and the unhealthy ones in the same order. It says that it degraded unless it
  -- returns the first or there are none.
  pub calculate_with_value-tiers :
      (instances : List (Instance S)) (canary_value : S) (unhealthy_set : List ℕ)
      → calculate_with_value canary instances canary_value unhealthy_set ≡ (
          let s = picked unhealthy_set (kind_with_value canary canary_value) selected instances in
          let n = picked unhealthy_set (kind_with_value canary canary_value) normal_one instances in
          let o = picked unhealthy_set (kind_with_value canary canary_value) other_one instances in
          first_tier (
            tier s.healthy_ false
            ∷ tier n.healthy_ true
            ∷ tier o.healthy_ true
            ∷ tier s.unhealthy_ true
            ∷ tier n.unhealthy_ true
            ∷ tier o.unhealthy_ true
            ∷ []))
  unfolding calculate_with_value
  calculate_with_value-tiers instances canary_value unhealthy_set =
      rw (vectors_filters unhealthy_set (kind_with_value canary canary_value) instances)
        (six_tiers _ _ _ _ _ _)
