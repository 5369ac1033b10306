-- ===== src/Router/SetDivision.antt =====
-- polaris/plugin/service_router/set_division_router.cpp: SetDivisionServiceRouter, for a key that is
-- not in its cache. The names of the metadata keys are parameters.
pub mod Parts
pub mod Area
use polaris_cpp.Base.{
  ℕ, zero, suc, ◌+◌, ◌-◌, Bool, true, false, Option, none, some, List, [], ◌∷◌, ◌++◌, take, drop,
  ◌==◌, if◌then◌else◌, ◌&&◌, ◌||◌, not, String, string_key, lookup,
}
use polaris_cpp.Router.Instances.{Instance, same, is_empty, filter, healthy}

-- `find_first_of(".")` and `find_last_of(".")`, where "." is 46.
unfoldable pub find_first : String → Option ℕ
find_first [] = none
find_first (c ∷ cs) =
    let rest : Option ℕ = elim (find_first cs) [ none ↦ none | some k ↦ some (suc k) ] in
    if c == 46 then some 0 else rest

unfoldable pub find_last : String → Option ℕ
find_last [] = none
find_last (c ∷ cs) = elim (find_last cs) [
  | some k ↦ some (suc k)
  | none ↦ if c == 46 then some 0 else none
]

abbrev pub same_place : Option ℕ → Option ℕ → Bool
same_place none none = true
same_place (some a) (some b) = a == b
same_place none (some b) = false
same_place (some a) none = false

-- `strcasecmp(value, "Y") == 0`.
abbrev pub says_yes : String → Bool
says_yes value = same value (89 ∷ []) || same value (121 ∷ [])

-- `substr(0, find_first_of("."))`.
unfoldable pub first_field : String → String
unfolding find_first
first_field s = elim (find_first s) [ none ↦ s | some k ↦ take k s ]

-- Whether a string begins as another one: `compare(0, prefix.size(), prefix) == 0`.
unfoldable pub starts_with : String → String → Bool
starts_with [] s = true
starts_with (p ∷ ps) [] = false
starts_with (p ∷ ps) (c ∷ cs) = let rest = starts_with ps cs in if p == c then rest else false

-- What the route goes on with: the instances, the subset's value, and the text on recovery.
pub record SetDivisionCacheValue : Type 0 where
  pub enable_set : Bool
  pub instances : List (Instance String)
  pub subset : Option String
  pub recover : Bool

module _ (enable_set_key set_name_key : String) where
  -- `internal_set_name_` of an instance.
  abbrev pub get_internal_set_name : Instance String → String
  get_internal_set_name i = elim (lookup set_name_key i.metadata) [ none ↦ [] | some v ↦ v ]

  -- The instance has the set division enabled.
  abbrev pub enables : Instance String → Bool
  enables i = elim (lookup enable_set_key i.metadata) [ none ↦ false | some v ↦ says_yes v ]

  unfoldable pub is_set_division_router_enable : String → Instance String → Bool
  unfolding find_first find_last first_field
  is_set_division_router_enable caller_set_name i =
      if is_empty caller_set_name || is_empty i.metadata
      then false
      else if same_place (find_first caller_set_name) (find_last caller_set_name)
      then false
      else if not (enables i)
      then false
      else same (first_field caller_set_name) (first_field (get_internal_set_name i))

  -- Whether GetResultWithSetName takes an instance.
  unfoldable pub has_set_name : String → Bool → Instance String → Bool
  unfolding starts_with
  has_set_name set_name wild i =
      if not (enables i)
      then false
      else if is_empty (get_internal_set_name i)
      then false
      else if wild
      then starts_with set_name (get_internal_set_name i)
      else same (get_internal_set_name i) set_name

  unfoldable pub get_result_with_set_name :
      String → List (Instance String) → Bool → List (Instance String)
  unfolding has_set_name
  get_result_with_set_name set_name src_instances wild =
      filter (has_set_name set_name wild) src_instances

  -- CalculateMatchResult for the places of the first and the last point; "*" is 42.
  unfoldable pub match_at : String → ℕ → ℕ → List (Instance String) → List (Instance String)
  unfolding get_result_with_set_name
  match_at caller_set_name first_pos last_pos src_instances =
      let set_name = take first_pos caller_set_name in
      let set_area = take (last_pos - first_pos - 1) (drop (first_pos + 1) caller_set_name) in
      let set_group_id = drop (last_pos + 1) caller_set_name in
      let area = set_name ++ 46 ∷ (set_area ++ 46 ∷ []) in
      let exactly = get_result_with_set_name caller_set_name src_instances false in
      if same set_group_id (42 ∷ [])
      then get_result_with_set_name area src_instances true
      else if is_empty exactly
      then get_result_with_set_name (set_name ++ 46 ∷ (set_area ++ 46 ∷ 42 ∷ [])) src_instances
          false
      else exactly

  -- A name without two points gives no instance.
  unfoldable pub calculate_match_result : String → List (Instance String) → List (Instance String)
  unfolding match_at find_first find_last
  calculate_match_result caller_set_name src_instances = elim (find_last caller_set_name) [
    | none ↦ []
    | some last_pos ↦ elim (find_first caller_set_name) [
      | none ↦ []
      | some first_pos ↦
          if first_pos == last_pos
          then []
          else match_at caller_set_name first_pos last_pos src_instances
    ]
  ]

  abbrev pub some_enables : String → List (Instance String) → Bool
  some_enables caller_set_name [] = false
  some_enables caller_set_name (i ∷ is) =
      let rest = some_enables caller_set_name is in
      if is_set_division_router_enable caller_set_name i then true else rest

  -- The value that DoRoute puts into its cache.
  unfoldable pub set_division_value :
      String → List (Instance String) → List ℕ → SetDivisionCacheValue
  unfolding is_set_division_router_enable calculate_match_result
  set_division_value caller_set_name instances unhealthy_set =
      let result = calculate_match_result caller_set_name instances in
      let healthy_result = filter (healthy unhealthy_set) result in
      if some_enables caller_set_name instances
      then (if not (is_empty healthy_result)
          then record {
            enable_set = true;
            instances = healthy_result;
            subset = some caller_set_name;
            recover = false;
          }
          else record {
            enable_set = true;
            instances = result;
            subset = some (42 ∷ []);
            recover = true;
          })
      else record { enable_set = false; instances = []; subset = none; recover = false }

  -- What DoRoute gives on: `none` where it leaves the instances as they are.
  unfoldable pub set_division_route :
      Option String → Bool → List (Instance String) → List ℕ → Option (List (Instance String))
  unfolding set_division_value
  set_division_route caller_set_name enable_set_force instances unhealthy_set =
      elim caller_set_name [
        | none ↦ none
        | some name ↦
            let value = set_division_value name instances unhealthy_set in
            if not enable_set_force && not value.enable_set then none else some value.instances
      ]
