-- ===== src/Router/Instances.antt =====
-- The instances that the routers of polaris/plugin/service_router choose from. An Instance* is its
-- address with what the routers read behind it, a std::map is an association list with unique keys,
-- and std::string is a type with decidable equality.
use polaris_cpp.Base.{
  ℕ, ◌+◌, length, ◌==◌, Bool, true, false, List, [], ◌∷◌, Key, if◌then◌else◌, ◌≡◌, refl, not, ◌&&◌,
  arith,
}

pub record Instance (S : Type 0) : Type 0 where
  pub address : ℕ
  pub metadata : List (S × S)
  pub region : S
  pub zone : S
  pub campus : S

-- `count` of a std::set of pointers.
unfoldable pub count : ℕ → List ℕ → Bool
count a [] = false
count a (b ∷ bs) = if a == b then true else count a bs

abbrev pub is_empty {ℓ} : {A : Type ℓ} → List A → Bool
is_empty [] = true
is_empty (x ∷ xs) = false

-- `a == b` of strings.
abbrev pub same : {S : Type 0} ⦃key : Key S⦄ → S → S → Bool
same ⦃key⦄ a b = elim (key.dec a b) [ yes _ ↦ true | no _ ↦ false ]

-- The elements that pass a test.
abbrev pub filter {ℓ} : {A : Type ℓ} → (A → Bool) → List A → List A
filter p [] = []
filter p (x ∷ xs) = let rest = filter p xs in if p x then x ∷ rest else rest

-- What a router's calculation returns: the result vector, and whether it degraded.
pub record Choice (S : Type 0) : Type 0 where
  pub result : List (Instance S)
  pub degraded : Bool

-- Of several lists the first with an element, with its flag; and otherwise none, not degraded.
pub data Tier (S : Type 0) : Type 0 where
  tier : List (Instance S) → Bool → Tier S

abbrev pub first_tier : {S : Type 0} → List (Tier S) → Choice S
first_tier [] = record { result = []; degraded = false }
first_tier (tier [] flag ∷ tiers) = first_tier tiers
first_tier (tier (i ∷ is) flag ∷ tiers) = record { result = i ∷ is; degraded = flag }

abbrev pub healthy : {S : Type 0} → List ℕ → Instance S → Bool
healthy unhealthy_set i = not (count i.address unhealthy_set)

-- The two vectors that a loop over the instances fills, of those that pass `select`.
pub record Split (S : Type 0) : Type 0 where
  pub healthy_ : List (Instance S)
  pub unhealthy_ : List (Instance S)

unfoldable pub split : {S : Type 0} → List ℕ → (Instance S → Bool) → List (Instance S) → Split S
split unhealthy_set select [] = record { healthy_ = []; unhealthy_ = [] }
split unhealthy_set select (i ∷ is) =
    let rest = split unhealthy_set select is in
    if select i
    then (if healthy unhealthy_set i
        then record rest { healthy_ = i ∷ rest.healthy_ }
        else record rest { unhealthy_ = i ∷ rest.unhealthy_ })
    else rest

-- The split holds what the two tests say.
pub split_filters :
    {S : Type 0} (unhealthy_set : List ℕ) (select : Instance S → Bool) (is : List (Instance S))
    → split unhealthy_set select is ≡ record {
      healthy_ = filter (λ i. select i && healthy unhealthy_set i) is;
      unhealthy_ = filter (λ i. select i && not (healthy unhealthy_set i)) is;
    }
unfolding split
split_filters unhealthy_set select [] = refl
split_filters unhealthy_set select (i ∷ is) = ground (arith, split_filters unhealthy_set select is)

-- The instances in all tiers.
abbrev pub tiers_size : {S : Type 0} → List (Tier S) → ℕ
tiers_size [] = 0
tiers_size (tier is flag ∷ tiers) = length is + tiers_size tiers

pub first_tier_empty :
    {S : Type 0} (tiers : List (Tier S)) → (first_tier tiers).result ≡ [] → tiers_size tiers ≡ 0
first_tier_empty [] e = refl
first_tier_empty (tier [] flag ∷ tiers) e = omega (arith, first_tier_empty tiers e)
first_tier_empty (tier (i ∷ is) flag ∷ tiers) e = cc
