-- ===== src/Rule/Destination.antt =====
-- polaris/model/route_rule_destination.{h,cpp}: the rule on the callee, and the groups of instances
-- by subset; with SubSetInfo::GetSubInfoStrId of polaris/plugin/circuit_breaker/
-- set_circuit_breaker.cpp. A number that a message leaves out is `none`.
pub mod Groups
use polaris_cpp.Base.{
  ℕ, Bool, true, false, Option, none, some, List, [], ◌∷◌, ◌++◌, if◌then◌else◌, ◌&&◌, ◌||◌, not,
  String, string_key, less, put, lookup, map,
}
use polaris_cpp.Router.Instances.{Instance, same, is_empty, healthy}
use polaris_cpp.Rule.MatchString.{
  Re2, MatchString, PbMatchString, Metadata, RuleMetadata, is_parameter, wildcard_or_value,
  map_match_given,
}
use polaris_cpp.Rule.Source.{ServiceKey, init_metadata, fill_metadata}

-- The fields of v1::Destination that InitFromPb and RouteRule::InitFromPb read.
pub record PbDestination : Type 0 where
  pub namespace : String
  pub service : String
  pub metadata : List (String × PbMatchString)
  pub priority : Option ℕ
  pub weight : Option ℕ
  pub isolate : Option Bool
  pub transfer : Option String

pub record RouteRuleDestination : Type 0 where
  pub service_key_ : ServiceKey
  pub metadata_ : RuleMetadata
  pub weight_ : ℕ
  pub isolate_ : Bool
  pub transfer_service_ : String

pub record RuleRouterSet : Type 0 where
  pub weight_ : ℕ
  pub healthy_ : List (Instance String)
  pub unhealthy_ : List (Instance String)
  pub subset : Metadata
  pub isolated_ : Bool

-- The groups of instances by the text of their subset.
abbrev pub Groups : Type 0
Groups = List (String × RuleRouterSet)

-- `isolate_` and `weight_` of a destination whose metadata fails are the constructor's.
unfoldable pub init_destination : Re2 → PbDestination → Bool × RouteRuleDestination
unfolding init_metadata wildcard_or_value
init_destination re pb =
    let r = init_metadata re pb.metadata [] in
    let key : ServiceKey = record {
      namespace_ = wildcard_or_value pb.namespace;
      name_ = wildcard_or_value pb.service;
    } in
    if r.0
    then (
      true,
      record {
        service_key_ = key;
        metadata_ = r.1;
        weight_ = elim (pb.weight) [ none ↦ 0 | some w ↦ w ];
        isolate_ = elim (pb.isolate) [ none ↦ false | some b ↦ b ];
        transfer_service_ = elim (pb.transfer) [ none ↦ [] | some t ↦ t ];
      },
    )
    else (
      false,
      record {
        service_key_ = key;
        metadata_ = r.1;
        weight_ = 0;
        isolate_ = false;
        transfer_service_ = [];
      },
    )

unfoldable pub fill_destination :
    Re2 → (String → Option String) → RouteRuleDestination → Bool × RouteRuleDestination
unfolding fill_metadata
fill_destination re get d =
    let r = fill_metadata re get d.metadata_ in (r.0, record d { metadata_ = r.1 })

unfoldable pub match_destination : RouteRuleDestination → ServiceKey → Bool
match_destination d key =
    (same d.service_key_.namespace_ key.namespace_ || is_empty d.service_key_.namespace_)
    && (same d.service_key_.name_ key.name_ || is_empty d.service_key_.name_)

abbrev pub has_transfer : RouteRuleDestination → Bool
has_transfer d = not (is_empty d.transfer_service_)

-- ConvertMapToStr: `key:value` of each entry, sorted, with "|" between; ":" is 58 and "|" is 124.
abbrev pub insert_text : String → List String → List String
insert_text s [] = s ∷ []
insert_text s (t ∷ ts) = let rest = insert_text s ts in if less t s then t ∷ rest else s ∷ t ∷ ts

abbrev pub sort_texts : List String → List String
sort_texts [] = []
sort_texts (s ∷ ss) = insert_text s (sort_texts ss)

abbrev pub join_texts : List String → String
join_texts [] = []
join_texts (s ∷ []) = s
join_texts (s ∷ t ∷ ts) = s ++ 124 ∷ join_texts (t ∷ ts)

abbrev pub entry_texts : Metadata → List String
entry_texts [] = []
entry_texts ((k, v) ∷ m) = (k ++ 58 ∷ v) ∷ entry_texts m

unfoldable pub convert_map_to_str : Metadata → String
convert_map_to_str m = join_texts (sort_texts (entry_texts m))

-- `find(key)->second` of a key that is there.
abbrev pub value_at : String → Metadata → String
value_at k m = elim (lookup k m) [ none ↦ [] | some v ↦ v ]

-- The subset of an instance that matches.
unfoldable pub subset_of : RuleMetadata → Metadata → Metadata → Metadata
subset_of [] metadata parameters = []
subset_of ((k, m) ∷ rules) metadata parameters =
    (k, if is_parameter m then value_at k parameters else value_at k metadata)
    ∷ subset_of rules metadata parameters

-- The group of an instance: the one at its subset's text, or a new one.
unfoldable pub group_at : RouteRuleDestination → String → Metadata → Groups → RuleRouterSet
group_at d id subset groups = elim (lookup id groups) [
  | some set ↦ set
  | none ↦ record {
    weight_ = 0;
    healthy_ = [];
    unhealthy_ = [];
    subset = subset;
    isolated_ = d.isolate_;
  }
]

unfoldable pub push_to : List ℕ → Instance String → RuleRouterSet → RuleRouterSet
push_to unhealthy_set i set =
    if healthy unhealthy_set i
    then record set { healthy_ = set.healthy_ ++ i ∷ [] }
    else record set { unhealthy_ = set.unhealthy_ ++ i ∷ [] }

module _ (re : Re2) (d : RouteRuleDestination) (unhealthy_set : List ℕ)
    (parameters : Metadata) where
  unfoldable pub add_instance : Instance String → Groups → Groups
  unfolding map_match_given subset_of convert_map_to_str group_at push_to
  add_instance i groups =
      let ss = subset_of d.metadata_ i.metadata parameters in
      let id = convert_map_to_str ss in
      if map_match_given re d.metadata_ i.metadata parameters
      then put less id (push_to unhealthy_set i (group_at d id ss groups)) groups
      else groups

  -- The loop over the instances, from the groups so far.
  unfoldable pub group_loop : List (Instance String) → Groups → Groups
  unfolding add_instance
  group_loop [] groups = groups
  group_loop (i ∷ is) groups = group_loop is (add_instance i groups)

  unfoldable pub calculate_groups : List (Instance String) → Groups
  unfolding group_loop
  calculate_groups instances = group_loop instances []
