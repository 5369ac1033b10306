-- ===== src/Quota/RateLimitRule/MetricId.antt =====
-- The metric id that polaris/quota/model/rate_limit_rule.cpp prints for a window key.
use polaris_cpp.Base.{
  true, false, none, some, List, [], ◌∷◌, ◌++◌, if◌then◌else◌, not, ◌==◌, ◌≡◌, ◌≢◌, ◌⊎◌, refl, sym,
  ap, ◌∙◌, arith, inl, inr, Bool-cases, String, string_key, lookup, All,
}
use mathlib.Core.List.{append-nil}
use polaris_cpp.Rule.MatchString.{Re2, MatchString, Metadata, RuleMetadata}
use polaris_cpp.Quota.RateLimitRule.{
  RateLimitRule, RateLimitWindowKey, is_regex, is_exact_text, is_match, cut_bar, metric_loop,
  get_metric_id, get_window_key,
}
use polaris_cpp.Quota.RateLimitRule.WindowKey.{pattern_values, joined_by, get_window_key_matched}

-- A text without "|".
abbrev pub NoBar : String → Type 0
NoBar s = All (λ c. c ≢ 124) s

cut_bar-none : (s : String) → NoBar s → cut_bar s ≡ none
unfolding cut_bar
cut_bar-none [] n = refl
cut_bar-none (c ∷ cs) (h, n) = ground (arith, h, cut_bar-none cs n)

cut_bar_first : (s r : String) → NoBar s → cut_bar (s ++ 124 ∷ r) ≡ some (s, r)
unfolding cut_bar
cut_bar_first [] r n = refl
cut_bar_first (c ∷ cs) r (h, n) =
    let e : (c == 124) ≡ false = ground (arith, h) in rw (cut_bar, e, cut_bar_first cs r n) refl

-- The label's text: the rule's own, or the request's value where the rule has a pattern.
abbrev pub label_text : MatchString → String → Metadata → String
label_text m k labels =
    let value : String = elim (lookup k labels) [ none ↦ [] | some v ↦ v ] in
    if is_regex m then value else m.data_

abbrev pub labels_text : RuleMetadata → Metadata → String → String
labels_text [] labels separator = []
labels_text ((k, m) ∷ rules) labels separator =
    separator ++ (k ++ 58 ∷ (label_text m k labels ++ labels_text rules labels (124 ∷ [])))

-- Every label is an exact text, or a pattern.
abbrev pub IsPlain : RuleMetadata → Type 0
IsPlain rules = All (λ e. is_exact_text e.1 ≡ not (is_regex e.1)) rules

list_cases : {A : Type 0} (xs : List A) → (xs ≡ []) ⊎ ((x : A) × ((ys : List A) × (xs ≡ x ∷ ys)))
list_cases [] = inl refl
list_cases (x ∷ xs) = inr (x, (xs, refl))

module _ (k : String) (m : MatchString) (rules : RuleMetadata) (left separator : String)
    (pattern : is_exact_text m ≡ false) where
  pattern_last :
      cut_bar left ≡ none
      → metric_loop ((k, m) ∷ rules) left separator
        ≡ separator ++ (k ++ 58 ∷ (left ++ metric_loop rules left (124 ∷ [])))
  unfolding metric_loop
  pattern_last e = rw (metric_loop, pattern, e) refl

  pattern_cut :
      (before after : String)
      → cut_bar left ≡ some (before, after)
      → metric_loop ((k, m) ∷ rules) left separator
        ≡ separator ++ (k ++ 58 ∷ (before ++ metric_loop rules after (124 ∷ [])))
  unfolding metric_loop
  pattern_cut before after e = rw (metric_loop, pattern, e) refl

module _ (labels : Metadata) where
  -- Without patterns nothing is read of the key.
  metric_loop_exact :
      (rules : RuleMetadata) (left separator : String)
      → IsPlain rules
      → pattern_values rules labels ≡ []
      → metric_loop rules left separator ≡ labels_text rules labels separator
  unfolding metric_loop
  metric_loop_exact [] left separator p e = refl
  metric_loop_exact ((k, m) ∷ rules) left separator (h, p) e = elim (Bool-cases (is_regex m)) [
    | inl t ↦ let bad : ⊥ = ground (arith, t, e) in elim bad [ ]
    | inr t ↦
        let x : is_exact_text m ≡ true = h ∙ ap not t in
        rw (metric_loop, x, t)
          (ap (λ q. separator ++ (k ++ 58 ∷ (m.data_ ++ q)))
            (metric_loop_exact rules left (124 ∷ []) p (ground (arith, t, e))))
  ]

  abbrev value_of : String → String
  value_of k = elim (lookup k labels) [ none ↦ [] | some v ↦ v ]

  -- A label with a pattern, by what is behind it.
  pattern_text :
      (k : String) (m : MatchString) (rules : RuleMetadata) (separator : String)
      → is_regex m ≡ true
      → is_exact_text m ≡ not (is_regex m)
      → IsPlain rules
      → NoBar (value_of k)
      → All NoBar (pattern_values rules labels)
      → metric_loop rules (joined_by [] (pattern_values rules labels)) (124 ∷ [])
        ≡ labels_text rules labels (124 ∷ [])
      → metric_loop
          ((k, m) ∷ rules)
          (joined_by [] (value_of k ∷ pattern_values rules labels))
          separator
        ≡ separator ++ (k ++ 58 ∷ (value_of k ++ labels_text rules labels (124 ∷ [])))
  pattern_text k m rules separator t h p here n rest =
      let x : is_exact_text m ≡ false = h ∙ ap not t in
      let v = value_of k in
      elim (list_cases (pattern_values rules labels)) [
        | inl e ↦
            rw (e, append-nil v)
              (pattern_last k m rules v separator x (cut_bar-none v here)
                ∙ ap (λ q. separator ++ (k ++ 58 ∷ (v ++ q)))
                    (metric_loop_exact rules v (124 ∷ []) p e))
        | inr (w, (ws, e)) ↦
            let later = w ++ joined_by (124 ∷ []) ws in
            let r : metric_loop rules later (124 ∷ []) ≡ labels_text rules labels (124 ∷ []) =
              rw e at rest in
            rw e (
              pattern_cut k m rules (v ++ 124 ∷ later) separator x v later
                (cut_bar_first v later here)
              ∙ ap (λ q. separator ++ (k ++ 58 ∷ (v ++ q))) r)
      ]

  metric_loop_text :
      (rules : RuleMetadata) (separator : String)
      → IsPlain rules
      → All NoBar (pattern_values rules labels)
      → metric_loop rules (joined_by [] (pattern_values rules labels)) separator
        ≡ labels_text rules labels separator
  unfolding metric_loop
  metric_loop_text [] separator p n = refl
  metric_loop_text ((k, m) ∷ rules) separator (h, p) n = elim (Bool-cases (is_regex m)) [
    | inr t ↦
        let x : is_exact_text m ≡ true = h ∙ ap not t in
        rw (metric_loop, x, t)
          (ap (λ q. separator ++ (k ++ 58 ∷ (m.data_ ++ q)))
            (metric_loop_text rules (124 ∷ []) p (rw t at n)))
    | inl t ↦
        let all : All NoBar (value_of k ∷ pattern_values rules labels) = rw t at n in
        let values : pattern_values ((k, m) ∷ rules) labels
            ≡ value_of k ∷ pattern_values rules labels =
          rw t refl in
        let printed : labels_text ((k, m) ∷ rules) labels separator
            ≡ separator ++ (k ++ 58 ∷ (value_of k ++ labels_text rules labels (124 ∷ []))) =
          rw t refl in
        ap (λ q. metric_loop ((k, m) ∷ rules) (joined_by [] q) separator) values
        ∙ pattern_text k m rules separator t h p all.0 all.1
            (metric_loop_text rules (124 ∷ []) p all.1)
        ∙ sym printed
  ]

-- For a request that a rule matches, whose labels are all exact texts or patterns, and whose values
-- of the labels with a pattern have no "|", there is a window key, and GetMetricId prints for it the
-- rule, the method, and every label with the rule's text or, for a pattern, the request's value.
pub get_metric_id-get_window_key :
    (re : Re2) (rule : RateLimitRule) (method : String) (labels : Metadata)
    → is_match re rule method labels ≡ true
    → IsPlain rule.labels_
    → All NoBar (pattern_values rule.labels_ labels)
    → (key : RateLimitWindowKey) × ((get_window_key rule method labels ≡ some key)
        × (get_metric_id rule key
            ≡ rule.id_ ++ 35 ∷ (method ++ 35 ∷ labels_text rule.labels_ labels [])))
unfolding get_metric_id
get_metric_id-get_window_key re rule method labels e p n = (
  record {
    rule_id_ = rule.id_;
    method_ = method;
    regex_labels_ = joined_by [] (pattern_values rule.labels_ labels);
  },
  (
    get_window_key_matched re labels rule method e,
    ap (λ q. rule.id_ ++ 35 ∷ (method ++ 35 ∷ q)) (metric_loop_text labels rule.labels_ [] p n),
  ),
)
