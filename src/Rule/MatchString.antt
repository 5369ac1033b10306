-- ===== src/Rule/MatchString.antt =====
-- polaris/model/match_string.{h,cpp}: MatchString, and the three MapMatch. RE2 is a parameter, and
-- of a v1::MatchString the fields that Init reads are a record.
pub mod Maps
use polaris_cpp.Base.{
  ℕ, Bool, true, false, Option, none, some, List, [], ◌∷◌, ◌++◌, length, ltb, if◌then◌else◌, ◌||◌,
  String, string_key, lookup,
}
use polaris_cpp.Router.Instances.{same, is_empty}

pub data MatchStringType : Type 0 where
  exact regex : MatchStringType

pub data ValueType : Type 0 where
  text parameter variable : ValueType

-- The fields of the generated message v1::MatchString.
pub record PbMatchString : Type 0 where
  pub type : MatchStringType
  pub value_type : ValueType
  pub value : String

-- RE2: whether a pattern compiles, and PartialMatch of a value with a pattern.
pub record Re2 : Type 0 where
  pub ok : String → Bool
  pub partial_match : String → String → Bool

-- `regex_` is the pattern it was compiled from.
pub record MatchString : Type 0 where
  pub type_ : MatchStringType
  pub value_type_ : ValueType
  pub data_ : String
  pub regex_ : Option String
  pub all_match : Bool

-- "*" is 42, "," is 44.
abbrev pub all_match_text : String
all_match_text = 42 ∷ []

abbrev pub comma : String
comma = 44 ∷ []

abbrev pub is_parameter : MatchString → Bool
is_parameter m = elim (m.value_type_) [ parameter ↦ true | text ↦ false | variable ↦ false ]

abbrev pub is_variable : MatchString → Bool
is_variable m = elim (m.value_type_) [ variable ↦ true | text ↦ false | parameter ↦ false ]

unfoldable pub wildcard_or_value : String → String
wildcard_or_value value = if same value all_match_text then [] else value

abbrev pub Metadata : Type 0
Metadata = List (String × String)

abbrev pub RuleMetadata : Type 0
RuleMetadata = List (String × MatchString)

module _ (re : Re2) where
  unfoldable pub init_regex : String → MatchString → Bool × MatchString
  init_regex pattern m = (re.ok pattern, record m { regex_ = some pattern })

  -- `Init`, with its result.
  unfoldable pub init : PbMatchString → Bool × MatchString
  unfolding init_regex
  init pb =
      let m : MatchString = record {
        type_ = pb.type;
        value_type_ = pb.value_type;
        data_ = pb.value;
        regex_ = none;
        all_match = is_empty pb.value || same pb.value all_match_text;
      } in
      if m.all_match
      then (true, m)
      else elim (pb.type) [ regex ↦ init_regex pb.value m | exact ↦ (true, m) ]

  unfoldable pub fill_variable : String → MatchString → Bool × MatchString
  unfolding init_regex
  fill_variable value m =
      let m' = record m { data_ = value } in
      elim (m.type_) [ regex ↦ init_regex value m' | exact ↦ (true, m') ]

  unfoldable pub match_value : MatchString → String → Bool
  match_value m value =
      if is_parameter m then true else if m.all_match then true else elim (m.type_) [
        | exact ↦ same m.data_ value
        | regex ↦ elim (m.regex_) [ some pattern ↦ re.partial_match value pattern | none ↦ false ]
      ]

  unfoldable pub match_parameter : MatchString → String → String → Bool
  match_parameter m given value = elim (m.type_) [
    | exact ↦ same given value
    | regex ↦ if re.ok given then re.partial_match value given else false
  ]

  -- MapMatch of a rule's metadata with the metadata.
  unfoldable pub entry_loop : RuleMetadata → Metadata → Bool
  unfolding match_value
  entry_loop [] metadata = true
  entry_loop ((k, m) ∷ rules) metadata =
      let rest = entry_loop rules metadata in
      elim (lookup k metadata) [
        | none ↦ false
        | some value ↦ if match_value m value then rest else false
      ]

  unfoldable pub map_match : RuleMetadata → Metadata → Bool
  unfolding entry_loop
  map_match rules metadata =
      if ltb (length metadata) (length rules) then false else entry_loop rules metadata

  -- MapMatch that returns the values of the parameters in an argument, by its loop from a separator
  -- and what the argument holds.
  unfoldable pub collect_loop : RuleMetadata → Metadata → String → String → Bool × String
  unfolding match_value
  collect_loop [] metadata separator parameters = (true, parameters)
  collect_loop ((k, m) ∷ rules) metadata separator parameters = elim (lookup k metadata) [
    | none ↦ (false, parameters)
    | some value ↦
        let collected = collect_loop rules metadata comma (separator ++ value) in
        let rest = collect_loop rules metadata separator parameters in
        if is_parameter m
        then collected
        else if match_value m value
        then rest
        else (false, parameters)
  ]

  unfoldable pub map_match_collect : RuleMetadata → Metadata → String → Bool × String
  unfolding collect_loop
  map_match_collect rules metadata parameters =
      if ltb (length metadata) (length rules)
      then (false, parameters)
      else collect_loop rules metadata [] []

  -- MapMatch with the values of the parameters.
  unfoldable pub given_loop : RuleMetadata → Metadata → Metadata → Bool
  unfolding match_value match_parameter
  given_loop [] metadata parameters = true
  given_loop ((k, m) ∷ rules) metadata parameters =
      let rest = given_loop rules metadata parameters in
      elim (lookup k metadata) [
        | none ↦ false
        | some value ↦
            if is_parameter m
            then elim (lookup k parameters) [
              | none ↦ false
              | some given ↦ if match_parameter m given value then rest else false
            ]
            else if match_value m value
            then rest
            else false
      ]

  unfoldable pub map_match_given : RuleMetadata → Metadata → Metadata → Bool
  unfolding given_loop
  map_match_given rules metadata parameters =
      if ltb (length metadata) (length rules) then false else given_loop rules metadata parameters
