-- ===== src/Rule/Source.antt =====
-- polaris/model/route_rule_source.cpp: the rule on the caller, and what it shares with the rule on
-- the callee, the filling of variables; with SystemVariables::GetVariable of
-- polaris/context/system_variables.cpp, where `getenv` is a parameter.
use polaris_cpp.Base.{
  Bool, true, false, Option, none, some, List, [], ◌∷◌, if◌then◌else◌, ◌&&◌, ◌||◌, not, String,
  string_key, less, put, lookup,
}
use polaris_cpp.Router.Instances.{same, is_empty}
use polaris_cpp.Rule.MatchString.{
  Re2, MatchString, PbMatchString, Metadata, RuleMetadata, init, fill_variable, is_variable,
  wildcard_or_value, map_match_collect,
}

pub record ServiceKey : Type 0 where
  pub namespace_ : String
  pub name_ : String

-- The fields of v1::Source that InitFromPb reads, its metadata in the order the loop meets it.
pub record PbSource : Type 0 where
  pub namespace : String
  pub service : String
  pub to_namespace : String
  pub to_service : String
  pub metadata : List (String × PbMatchString)

pub record RouteRuleSource : Type 0 where
  pub src_service_ : ServiceKey
  pub dst_service_ : ServiceKey
  pub metadata_ : RuleMetadata

-- The caller, as a request describes it.
pub record ServiceInfo : Type 0 where
  pub service_key_ : ServiceKey
  pub metadata_ : Metadata

unfoldable pub get_variable : (String → Option String) → Option Metadata → String → Option String
get_variable getenv config_variables_ variable = elim config_variables_ [
  | none ↦ getenv variable
  | some variables ↦ elim (lookup variable variables) [
    | none ↦ getenv variable
    | some value ↦ some value
  ]
]

module _ (re : Re2) where
  -- `metadata_[it->first].Init(it->second)` for each, up to the first that fails.
  unfoldable pub init_metadata : List (String × PbMatchString) → RuleMetadata → Bool × RuleMetadata
  unfolding init
  init_metadata [] metadata_ = (true, metadata_)
  init_metadata ((k, pb) ∷ rest) metadata_ =
      let r = init re pb in
      let metadata_' = put less k r.1 metadata_ in
      let rest = init_metadata rest metadata_' in if r.0 then rest else (false, metadata_')

  unfoldable pub init_source : PbSource → Bool × RouteRuleSource
  unfolding init_metadata wildcard_or_value
  init_source pb =
      let r = init_metadata pb.metadata [] in
      (
        r.0,
        record {
          src_service_ = record {
            namespace_ = wildcard_or_value pb.namespace;
            name_ = wildcard_or_value pb.service;
          };
          dst_service_ = record {
            namespace_ = wildcard_or_value pb.to_namespace;
            name_ = wildcard_or_value pb.to_service;
          };
          metadata_ = r.1;
        },
      )

  -- A variable's value, where it has one; whether it could be filled.
  unfoldable pub fill_one : (String → Option String) → MatchString → Bool × MatchString
  unfolding fill_variable
  fill_one get m =
      if is_variable m && not (is_empty m.data_)
      then elim (get m.data_) [ none ↦ (true, m) | some value ↦ fill_variable re value m ]
      else (true, m)

  unfoldable pub fill_metadata : (String → Option String) → RuleMetadata → Bool × RuleMetadata
  unfolding fill_one
  fill_metadata get [] = (true, [])
  fill_metadata get ((k, m) ∷ rules) =
      let r = fill_one get m in
      let rest = fill_metadata get rules in
      if r.0 then (rest.0, (k, r.1) ∷ rest.1) else (false, (k, r.1) ∷ rules)

  unfoldable pub fill_source : (String → Option String) → RouteRuleSource → Bool × RouteRuleSource
  unfolding fill_metadata
  fill_source get s = let r = fill_metadata get s.metadata_ in (r.0, record s { metadata_ = r.1 })

-- An empty field of a rule is any service.
unfoldable pub match_service : ServiceKey → ServiceKey → Bool
match_service rule input =
    (is_empty rule.namespace_ || same rule.namespace_ input.namespace_)
    && (is_empty rule.name_ || same rule.name_ input.name_)

unfoldable pub match_source :
    Re2 → RouteRuleSource → ServiceKey → ServiceKey → Metadata → String → Bool × String
unfolding match_service map_match_collect
match_source re s src_service dst_service metadata parameter =
    if match_service s.src_service_ src_service && match_service s.dst_service_ dst_service
    then map_match_collect re s.metadata_ metadata parameter
    else (false, parameter)

unfoldable pub is_wildcard_rule : RouteRuleSource → Bool
is_wildcard_rule s =
    is_empty s.src_service_.namespace_ && is_empty s.src_service_.name_ && is_empty s.metadata_
