-- ===== src/Quota/RateLimitData.antt =====
-- polaris/quota/model/service_rate_limit_rule.cpp: RateLimitData, the rules of a service in the
-- order of their priorities and ids, and the rule that a request is limited by.
use polaris_cpp.Base.{
  ℕ, ◌≤◌, Bool, true, false, Option, none, some, List, [], ◌∷◌, ltb, ◌==◌, if◌then◌else◌, ◌≡◌, ◌⊎◌,
  arith, inl, inr, Bool-cases, String, less, All,
}
use polaris_cpp.Rule.MatchString.{Re2, Metadata}
use polaris_cpp.Quota.RateLimitRule.{RateLimitRule, is_match}

-- RateLimitRulePtrCompare.
unfoldable pub rule_before : RateLimitRule → RateLimitRule → Bool
rule_before lhs rhs =
    if ltb lhs.priority_ rhs.priority_
    then true
    else if lhs.priority_ == rhs.priority_
    then less lhs.id_ rhs.id_
    else false

-- `std::sort`; rules differ in their ids, so there is one sorted order.
unfoldable pub insert_rule : RateLimitRule → List RateLimitRule → List RateLimitRule
unfolding rule_before
insert_rule r [] = r ∷ []
insert_rule r (s ∷ rules) =
    let rest = insert_rule r rules in if rule_before s r then s ∷ rest else r ∷ s ∷ rules

unfoldable pub sort_by_priority : List RateLimitRule → List RateLimitRule
unfolding insert_rule
sort_by_priority [] = []
sort_by_priority (r ∷ rules) = insert_rule r (sort_by_priority rules)

unfoldable pub match_rule : Re2 → List RateLimitRule → String → Metadata → Option RateLimitRule
unfolding is_match
match_rule re [] method labels = none
match_rule re (r ∷ rules) method labels =
    let rest = match_rule re rules method labels in
    if is_match re r method labels then some r else rest

-- No rule has a lower number than the first of a sorted list.
abbrev IsSorted : List RateLimitRule → Type 0
IsSorted [] = Unit {0}
IsSorted (r ∷ rules) = All (λ s. r.priority_ ≤ s.priority_) rules × IsSorted rules

insert_rule-All :
    (P : RateLimitRule → Type 0) (r : RateLimitRule) (rules : List RateLimitRule)
    → P r
    → All P rules
    → All P (insert_rule r rules)
unfolding insert_rule
insert_rule-All P r [] p a = (p, tt)
insert_rule-All P r (s ∷ rules) p (q, a) = elim (Bool-cases (rule_before s r)) [
  | inl e ↦ rw (insert_rule, e) (q, insert_rule-All P r rules p a)
  | inr e ↦ rw (insert_rule, e) (p, (q, a))
]

All-weaken :
    (a b : ℕ) (rules : List RateLimitRule)
    → a ≤ b
    → All (λ s. b ≤ s.priority_) rules
    → All (λ s. a ≤ s.priority_) rules
All-weaken a b [] le h = tt
All-weaken a b (s ∷ rules) le (x, h) = (omega (arith, x, le), All-weaken a b rules le h)

rule_before_le : (s r : RateLimitRule) → rule_before s r ≡ true → s.priority_ ≤ r.priority_
unfolding rule_before
rule_before_le s r e = ground (arith, e)

rule_after_le : (s r : RateLimitRule) → rule_before s r ≡ false → r.priority_ ≤ s.priority_
unfolding rule_before
rule_after_le s r e = ground (arith, e)

insert_rule-IsSorted :
    (r : RateLimitRule) (rules : List RateLimitRule)
    → IsSorted rules
    → IsSorted (insert_rule r rules)
unfolding insert_rule
insert_rule-IsSorted r [] h = (tt, tt)
insert_rule-IsSorted r (s ∷ rules) (a, h) = elim (Bool-cases (rule_before s r)) [
  | inl e ↦
      rw (insert_rule, e)
        (
          insert_rule-All (λ t. s.priority_ ≤ t.priority_) r rules (rule_before_le s r e) a,
          insert_rule-IsSorted r rules h,
        )
  | inr e ↦
      let le = rule_after_le s r e in
      rw (insert_rule, e) ((le, All-weaken r.priority_ s.priority_ rules le a), (a, h))
]

sort-IsSorted : (rules : List RateLimitRule) → IsSorted (sort_by_priority rules)
unfolding sort_by_priority
sort-IsSorted [] = tt
sort-IsSorted (r ∷ rules) = insert_rule-IsSorted r (sort_by_priority rules) (sort-IsSorted rules)

inserted-All :
    (P : RateLimitRule → Type 0) (r : RateLimitRule) (rules : List RateLimitRule)
    → All P (insert_rule r rules)
    → P r × All P rules
unfolding insert_rule
inserted-All P r [] h = h
inserted-All P r (s ∷ rules) h = elim (Bool-cases (rule_before s r)) [
  | inl e ↦
      let both : P s × All P (insert_rule r rules) = rw (insert_rule, e) at h in
      let rest = inserted-All P r rules both.1 in (rest.0, (both.0, rest.1))
  | inr e ↦ rw (insert_rule, e) at h
]

sorted-All :
    (P : RateLimitRule → Type 0) (rules : List RateLimitRule)
    → All P (sort_by_priority rules)
    → All P rules
unfolding sort_by_priority
sorted-All P [] h = tt
sorted-All P (r ∷ rules) h =
    let both = inserted-All P r (sort_by_priority rules) h in (both.0, sorted-All P rules both.1)

module _ (re : Re2) (method : String) (labels : Metadata) where
  -- What a choice among rules should be: a rule that matches, and no rule that matches has a lower
  -- number; or none, and no rule matches.
  abbrev pub IsChosen : List RateLimitRule → Option RateLimitRule → Type 0
  IsChosen rules none = All (λ s. is_match re s method labels ≡ false) rules
  IsChosen rules (some r) =
      (is_match re r method labels ≡ true)
      × All (λ s. (is_match re s method labels ≡ false) ⊎ (r.priority_ ≤ s.priority_)) rules

  none_lower :
      (r : RateLimitRule) (rules : List RateLimitRule)
      → All (λ s. r.priority_ ≤ s.priority_) rules
      → All (λ s. (is_match re s method labels ≡ false) ⊎ (r.priority_ ≤ s.priority_)) rules
  none_lower r [] h = tt
  none_lower r (s ∷ rules) (x, h) = (inr x, none_lower r rules h)

  behind :
      (s : RateLimitRule) (rules : List RateLimitRule) (o : Option RateLimitRule)
      → is_match re s method labels ≡ false
      → IsChosen rules o
      → IsChosen (s ∷ rules) o
  behind s rules none e c = (e, c)
  behind s rules (some r) e (m, c) = (m, (inl e, c))

  match_sorted :
      (rules : List RateLimitRule)
      → IsSorted rules
      → IsChosen rules (match_rule re rules method labels)
  unfolding match_rule
  match_sorted [] h = tt
  match_sorted (r ∷ rules) (a, h) = elim (Bool-cases (is_match re r method labels)) [
    | inl e ↦ rw (match_rule, e) (e, (inr (omega arith), none_lower r rules a))
    | inr e ↦
        rw (match_rule, e)
          (behind r rules (match_rule re rules method labels) e (match_sorted rules h))
  ]

  unsorted :
      (rules : List RateLimitRule) (o : Option RateLimitRule)
      → IsChosen (sort_by_priority rules) o
      → IsChosen rules o
  unsorted rules none c = sorted-All (λ s. is_match re s method labels ≡ false) rules c
  unsorted rules (some r) (m, c) = (
    m,
    sorted-All (λ s. (is_match re s method labels ≡ false) ⊎ (r.priority_ ≤ s.priority_)) rules c,
  )

  -- With the rules of a service sorted as they are when they are loaded, the rule that limits a
  -- request matches it, and no rule of the service that matches has a lower number; where no rule
  -- limits it, none matches.
  pub match_rule-IsChosen :
      (rules : List RateLimitRule)
      → IsChosen rules (match_rule re (sort_by_priority rules) method labels)
  match_rule-IsChosen rules =
      unsorted rules (match_rule re (sort_by_priority rules) method labels)
        (match_sorted (sort_by_priority rules) (sort-IsSorted rules))
