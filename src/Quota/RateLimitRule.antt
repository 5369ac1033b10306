-- ===== src/Quota/RateLimitRule.antt =====
-- polaris/quota/model/rate_limit_rule.{h,cpp}: RateLimitRule, its amounts, its report, the requests
-- it matches, and the key of the window that counts them. A field that a message leaves out is `none`.
pub mod WindowKey
pub mod MetricId
use polaris_cpp.Base.{
  ℕ, ◌+◌, ◌*◌, ◌/◌, ◌%◌, ◌^◌, Bool, true, false, Option, none, some, List, [], ◌∷◌, ◌++◌, ltb, leb,
  if◌then◌else◌, ◌&&◌, ◌||◌, not, ◌==◌, String, string_key, lookup,
}
use polaris_cpp.Router.Instances.{is_empty, same}
use polaris_cpp.Rule.MatchString.{
  Re2, MatchString, exact, regex, text, parameter, variable, Metadata, RuleMetadata, match_value,
  map_match,
}

-- The fields of v1::Amount; the duration is in milliseconds.
pub record PbAmount : Type 0 where
  pub valid_duration : ℕ
  pub max_amount : ℕ
  pub precision : Option ℕ
  pub start_amount : Option ℕ
  pub min_amount : Option ℕ

pub record RuleAmount : Type 0 where
  pub max_amount_ : ℕ
  pub valid_duration_ : ℕ
  pub precision_ : ℕ
  pub start_amount_ : ℕ
  pub end_amount_ : ℕ
  pub min_amount_ : ℕ

abbrev pub value_or : ℕ → Option ℕ → ℕ
value_or other none = other
value_or other (some n) = n

-- One round of InitAmount behind the test of the period.
abbrev pub amount_of : PbAmount → RuleAmount
amount_of pb = record {
  max_amount_ = value_or pb.max_amount pb.start_amount;
  valid_duration_ = pb.valid_duration;
  precision_ = value_or 1 pb.precision;
  start_amount_ = value_or pb.max_amount pb.start_amount;
  end_amount_ = pb.max_amount;
  min_amount_ = value_or 1 pb.min_amount;
}

-- The loop of InitAmount, from the amounts so far.
unfoldable pub amount_loop : List PbAmount → List RuleAmount → Bool × List RuleAmount
amount_loop [] amounts_ = (not (is_empty amounts_), amounts_)
amount_loop (pb ∷ pbs) amounts_ =
    let rest = amount_loop pbs (amounts_ ++ amount_of pb ∷ []) in
    if ltb pb.valid_duration 1000 then (false, amounts_) else rest

unfoldable pub init_amount : List PbAmount → Bool × List RuleAmount
unfolding amount_loop
init_amount amounts = amount_loop amounts []

-- The interval in milliseconds, as `uint32_t`, and the share in percent.
pub record RateLimitReport : Type 0 where
  pub interval_ : ℕ
  pub amount_percent_ : ℕ
  pub enable_batch_ : Bool

-- `none` where InitReportConfig fails. The arguments are the amount's percentage and the interval of
-- a report, where the rule has them.
unfoldable pub init_report_config : Option ℕ → Option ℕ → Option RateLimitReport
init_report_config amount_percent interval =
    let percent = value_or 80 amount_percent in
    let given = value_or 40 interval % 2 ^ 32 in
    let raised = if ltb given 2 then 2 else given in
    let limited = if ltb 5000 raised then 5000 else raised in
    if leb percent 0 || ltb 100 percent
    then none
    else some (record { interval_ = limited; amount_percent_ = percent; enable_batch_ = true })

-- The loop of FindMaxValidDuration, from the first duration.
unfoldable pub max_duration_loop : ℕ → List RuleAmount → ℕ
max_duration_loop max_duration [] = max_duration
max_duration_loop max_duration (a ∷ as_) =
    max_duration_loop
      (if ltb max_duration a.valid_duration_ then a.valid_duration_ else max_duration) as_

-- `none` for the amounts that the code asserts not to be there.
unfoldable pub find_max_valid_duration : List RuleAmount → Option ℕ
unfolding max_duration_loop
find_max_valid_duration [] = none
find_max_valid_duration (a ∷ as_) = some (max_duration_loop a.valid_duration_ as_)

pub record RateLimitRule : Type 0 where
  pub id_ : String
  pub priority_ : ℕ
  pub disable_ : Bool
  pub method_ : MatchString
  pub labels_ : RuleMetadata

pub record RateLimitWindowKey : Type 0 where
  pub rule_id_ : String
  pub method_ : String
  pub regex_labels_ : String

abbrev pub is_regex : MatchString → Bool
is_regex m = elim (m.type_) [ regex ↦ true | exact ↦ false ]

abbrev pub is_exact_text : MatchString → Bool
is_exact_text m = elim (m.value_type_) [
  | text ↦ not (is_regex m)
  | parameter ↦ false
  | variable ↦ false
]

unfoldable pub is_match : Re2 → RateLimitRule → String → Metadata → Bool
unfolding match_value map_match
is_match re rule method labels =
    if rule.disable_
    then false
    else match_value re rule.method_ method && map_match re rule.labels_ labels

-- The loop of GetWindowKey, from a separator and the text so far; "|" is 124. `none` is a read
-- behind the end of the labels.
unfoldable pub window_key_loop : RuleMetadata → Metadata → String → String → Option String
window_key_loop [] labels separator regex_labels_ = some regex_labels_
window_key_loop ((k, m) ∷ rules) labels separator regex_labels_ = elim (lookup k labels) [
  | none ↦
      let rest = window_key_loop rules labels separator regex_labels_ in
      if is_regex m then none else rest
  | some value ↦
      let next = window_key_loop rules labels (124 ∷ []) (regex_labels_ ++ (separator ++ value)) in
      let rest = window_key_loop rules labels separator regex_labels_ in
      if is_regex m then next else rest
]

unfoldable pub get_window_key : RateLimitRule → String → Metadata → Option RateLimitWindowKey
unfolding window_key_loop
get_window_key rule method labels = elim (window_key_loop rule.labels_ labels [] []) [
  | none ↦ none
  | some regex_labels_ ↦
      some (record { rule_id_ = rule.id_; method_ = method; regex_labels_ = regex_labels_ })
]

-- MatchMapToStr; ";" is 59 and ":" is 58.
unfoldable pub match_map_to_str : String → RuleMetadata → String
match_map_to_str separator [] = []
match_map_to_str separator ((k, m) ∷ rules) =
    separator ++ (k ++ 58 ∷ (m.data_ ++ match_map_to_str (59 ∷ []) rules))

unfoldable pub get_labels_as_string : RateLimitRule → String
unfolding match_map_to_str
get_labels_as_string rule =
    if is_empty rule.labels_ then 42 ∷ [] else match_map_to_str [] rule.labels_

-- `find('|', pos)`: the text before the first "|" and behind it.
unfoldable pub cut_bar : String → Option (String × String)
cut_bar [] = none
cut_bar (c ∷ cs) =
    let rest : Option (String × String) = elim (cut_bar cs) [
      | none ↦ none
      | some (a, b) ↦ some (c ∷ a, b)
    ] in
    if c == 124 then some ([], cs) else rest

-- The loop of GetMetricId, where `left` is the text of the key from `pos` on.
unfoldable pub metric_loop : RuleMetadata → String → String → String
unfolding cut_bar
metric_loop [] left separator = []
metric_loop ((k, m) ∷ rules) left separator =
    let own = m.data_ ++ metric_loop rules left (124 ∷ []) in
    let taken : String = elim (cut_bar left) [
      | some (before, after) ↦ before ++ metric_loop rules after (124 ∷ [])
      | none ↦ left ++ metric_loop rules left (124 ∷ [])
    ] in
    separator ++ (k ++ 58 ∷ (if is_exact_text m then own else taken))

-- "#" is 35.
unfoldable pub get_metric_id : RateLimitRule → RateLimitWindowKey → String
unfolding metric_loop
get_metric_id rule key =
    rule.id_ ++ 35 ∷ (key.method_ ++ 35 ∷ metric_loop rule.labels_ key.regex_labels_ [])
