-- ===== src/Quota/RateLimitRule/WindowKey.antt =====
-- The window key that polaris/quota/model/rate_limit_rule.cpp makes for a request.
use polaris_cpp.Base.{
  true, none, some, List, [], ◌∷◌, ◌++◌, if◌then◌else◌, ◌≡◌, refl, sym, ap, ◌∙◌, arith, inl, inr,
  Bool-cases, Option-cases, String, string_key, lookup,
}
use mathlib.Core.List.{append-nil, append_assoc}
use polaris_cpp.Rule.MatchString.{Re2, Metadata, RuleMetadata, map_match, entry_loop}
use polaris_cpp.Quota.RateLimitRule.{
  RateLimitRule, is_regex, is_match, window_key_loop, get_window_key,
}

-- The values of the labels with a pattern, in the rule's order.
abbrev pub pattern_values : RuleMetadata → Metadata → List String
pattern_values [] labels = []
pattern_values ((k, m) ∷ rules) labels =
    let rest = pattern_values rules labels in
    let value : String = elim (lookup k labels) [ none ↦ [] | some v ↦ v ] in
    if is_regex m then value ∷ rest else rest

-- Texts with "|" between them, the first one behind a separator.
abbrev pub joined_by : String → List String → String
joined_by separator [] = []
joined_by separator (v ∷ vs) = separator ++ (v ++ joined_by (124 ∷ []) vs)

module _ (re : Re2) (labels : Metadata) where
  window_key_loop_is :
      (rules : RuleMetadata) (separator old : String)
      → entry_loop re rules labels ≡ true
      → window_key_loop rules labels separator old
        ≡ some (old ++ joined_by separator (pattern_values rules labels))
  unfolding window_key_loop entry_loop
  window_key_loop_is [] separator old e = ap (λ t. some t) (sym (append-nil old))
  window_key_loop_is ((k, m) ∷ rules) separator old e = elim (Option-cases (lookup k labels)) [
    | inl n ↦ let bad : ⊥ = ground (arith, n, e) in elim bad [ ]
    | inr (v, n) ↦
        let rest : entry_loop re rules labels ≡ true = ground (arith, n, e) in
        let later = joined_by (124 ∷ []) (pattern_values rules labels) in
        elim (Bool-cases (is_regex m)) [
          | inr t ↦ rw (window_key_loop, n, t) (window_key_loop_is rules separator old rest)
          | inl t ↦
              rw (window_key_loop, n, t)
                (window_key_loop_is rules (124 ∷ []) (old ++ (separator ++ v)) rest
                  ∙ ap (λ q. some q)
                      (append_assoc old (separator ++ v) later
                        ∙ ap (λ q. old ++ q) (append_assoc separator v later)))
        ]
  ]

  matched_entries :
      (rule : RateLimitRule) (method : String)
      → is_match re rule method labels ≡ true
      → entry_loop re rule.labels_ labels ≡ true
  unfolding is_match map_match
  matched_entries rule method e = ground (arith, e)

  -- For a request that the rule matches, the window key is made without a read behind the end of the
  -- labels, of the rule, the method, and the request's values of the labels that the rule has a
  -- pattern for, in the order of the rule.
  pub get_window_key_matched :
      (rule : RateLimitRule) (method : String)
      → is_match re rule method labels ≡ true
      → get_window_key rule method labels
        ≡ some (record {
          rule_id_ = rule.id_;
          method_ = method;
          regex_labels_ = joined_by [] (pattern_values rule.labels_ labels);
        })
  unfolding get_window_key
  get_window_key_matched rule method e =
      rw (get_window_key, window_key_loop_is rule.labels_ [] [] (matched_entries rule method e))
        refl
