-- ===== src/Router/Nearby.antt =====
-- polaris/plugin/service_router/nearby_router.{h,cpp}: NearbyRouterCluster. A match level is
-- its number, and an access to a level past the last one would read an empty set.
pub mod Levels
pub mod Loops
pub mod Result
pub mod Promise
use polaris_cpp.Base.{
  ℕ, zero, suc, ◌+◌, ◌*◌, Bool, true, false, Option, none, some, List, [], ◌∷◌, ◌++◌, length,
  get_elem?, set, replicate, Key, ltb, leb, ◌==◌, if◌then◌else◌, not, ◌&&◌, add64, mul64,
}
use polaris_cpp.Router.NearbyConfig.{Location, NearbyRouterConfig}
use polaris_cpp.Router.Instances.{Instance, is_empty, same, healthy, Choice}

pub record NearbyRouterSet (S : Type 0) : Type 0 where
  pub healthy_ : List (Instance S)
  pub unhealthy_ : List (Instance S)

abbrev pub empty_set : {S : Type 0} → NearbyRouterSet S
empty_set = record { healthy_ = []; unhealthy_ = [] }

-- `data_`, as the constructor resizes it.
abbrev pub fresh_data : {S : Type 0} → NearbyRouterConfig → List (NearbyRouterSet S)
fresh_data config = replicate (suc config.match_level_) empty_set

-- `data_[level]`.
abbrev pub at : {S : Type 0} → List (NearbyRouterSet S) → ℕ → NearbyRouterSet S
at data_ level = elim (get_elem? data_ level) [ none ↦ empty_set | some s ↦ s ]

unfoldable pub push_instance :
    {S : Type 0} → List ℕ → List (NearbyRouterSet S) → ℕ → Instance S → List (NearbyRouterSet S)
push_instance unhealthy_set data_ level i =
    let s = at data_ level in
    if healthy unhealthy_set i
    then set data_ level (record s { healthy_ = s.healthy_ ++ i ∷ [] })
    else set data_ level (record s { unhealthy_ = s.unhealthy_ ++ i ∷ [] })

-- The level that an instance shares with the location, at most the configured one.
unfoldable pub level_of : {S : Type 0} ⦃key : Key S⦄ → ℕ → Location S → Instance S → ℕ
level_of match_level location i =
    if leb 1 match_level && same location.region i.region
    then (if leb 2 match_level && same location.zone i.zone
        then (if leb 3 match_level && same location.campus i.campus then 3 else 2)
        else 1)
    else 0

-- The loop of both CalculateSet, at the level that `level` says.
unfoldable pub set_loop :
    {S : Type 0}
    → List ℕ
    → (Instance S → ℕ)
    → List (NearbyRouterSet S)
    → List (Instance S)
    → List (NearbyRouterSet S)
set_loop unhealthy_set level data_ [] = data_
set_loop unhealthy_set level data_ (i ∷ is) =
    set_loop unhealthy_set level (push_instance unhealthy_set data_ (level i) i) is

-- CalculateSet with a location, and without.
abbrev pub calculate_set :
    {S : Type 0} ⦃key : Key S⦄
    → NearbyRouterConfig
    → Location S
    → List (NearbyRouterSet S)
    → List (Instance S)
    → List ℕ
    → List (NearbyRouterSet S)
calculate_set config location data_ instances unhealthy_set =
    set_loop unhealthy_set (λ i. level_of config.match_level_ location i) data_ instances

abbrev pub calculate_set_at_match_level :
    {S : Type 0}
    → NearbyRouterConfig
    → List (NearbyRouterSet S)
    → List (Instance S)
    → List ℕ
    → List (NearbyRouterSet S)
calculate_set_at_match_level config data_ instances unhealthy_set =
    set_loop unhealthy_set (λ i. config.match_level_) data_ instances

-- The sizes that CalculateResult adds up, in `size_t`.
abbrev pub size_at : {S : Type 0} → List (NearbyRouterSet S) → ℕ → ℕ
size_at data_ level = add64 (length (at data_ level).healthy_) (length (at data_ level).unhealthy_)

-- The loop down to the first level with an instance, and at most to the maximal one.
unfoldable pub match_loop : {S : Type 0} → List (NearbyRouterSet S) → ℕ → ℕ → ℕ
match_loop data_ max_level zero = zero
match_loop data_ max_level (suc level) =
    let down = match_loop data_ max_level level in
    if leb (size_at data_ (suc level)) 0 && ltb max_level (suc level) then down else suc level

-- The loop that degrades, from the level below `above`: the level it ends at.
unfoldable pub degrade_loop : {S : Type 0} → List (NearbyRouterSet S) → ℕ → ℕ → ℕ → ℕ → ℕ → Option ℕ
degrade_loop data_ max_level percent zero total_size unhealthy_size = none
degrade_loop data_ max_level percent (suc level) total_size unhealthy_size =
    let total_size' : ℕ = add64 total_size (size_at data_ level) in
    let unhealthy_size' : ℕ = add64 unhealthy_size (length (at data_ level).unhealthy_) in
    let next = degrade_loop data_ max_level percent level total_size' unhealthy_size' in
    if ltb level max_level
    then none
    else if ltb (mul64 unhealthy_size' 100) (mul64 total_size' percent)
    then some level
    else next

-- The healthy instances from a level down to the one that was degraded to.
unfoldable pub gather : {S : Type 0} → List (NearbyRouterSet S) → ℕ → ℕ → List (Instance S)
gather data_ degrade_to zero = if leb degrade_to 0 then (at data_ 0).healthy_ else []
gather data_ degrade_to (suc level) =
    let rest = gather data_ degrade_to level in
    if leb degrade_to (suc level) then (at data_ (suc level)).healthy_ ++ rest else []

-- What CalculateResult does without a degradation.
unfoldable pub nearest : {S : Type 0} → NearbyRouterConfig → List (NearbyRouterSet S) → ℕ → Choice S
nearest config data_ level =
    if not (is_empty (at data_ level).healthy_)
    then record {
      result = (at data_ level).healthy_;
      degraded = not (level == config.match_level_);
    }
    else if config.enable_recover_all_
    then record { result = (at data_ level).unhealthy_; degraded = true }
    else record { result = []; degraded = not (level == config.match_level_) }

-- CalculateResult: the choice, and `match_level`.
unfoldable pub calculate_result :
    {S : Type 0} → NearbyRouterConfig → List (NearbyRouterSet S) → Choice S × ℕ
calculate_result config data_ =
    let level = match_loop data_ config.max_match_level_ config.match_level_ in
    let total_size : ℕ = size_at data_ level in
    let unhealthy_size : ℕ = length (at data_ level).unhealthy_ in
    let percent : ℕ = config.unhealthy_percent_to_degrade_ in
    if leb total_size 0
    then (record { result = []; degraded = false }, level)
    else if config.enable_degrade_by_unhealthy_percent_
        && leb (mul64 total_size percent) (mul64 unhealthy_size 100)
    then elim (degrade_loop data_ config.max_match_level_ percent level total_size unhealthy_size) [
      | some to ↦ (record { result = gather data_ to level; degraded = true }, level)
      | none ↦ (nearest config data_ level, level)
    ]
    else (nearest config data_ level, level)
