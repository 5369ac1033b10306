-- ===== src/Rule/RouteMatch/First.antt =====
-- Which rule RouteMatch of polaris/model/service_route_rule.cpp takes.
use polaris_cpp.Base.{
  ℕ, zero, suc, ◌+◌, Bool, true, false, Option, none, some, List, [], ◌∷◌, if◌then◌else◌, ◌≡◌, ◌≢◌,
  ◌⊎◌, refl, sym, ap, ◌∙◌, arith, inl, inr, Bool-cases, String,
}
use polaris_cpp.Rule.MatchString.{Re2, Metadata, map_match_collect}
use polaris_cpp.Rule.Source.{ServiceKey, ServiceInfo, RouteRuleSource, match_source}
use polaris_cpp.Rule.RouteRule.{RouteRule, rule_match_source, match_sources}
use polaris_cpp.Rule.RouteMatch.{Matched, bound_loop, route_match}

picked_same :
    (a b c d : Bool × String)
    → a.0 ≡ b.0
    → c.0 ≡ d.0
    → (if a.0 then a else c).0 ≡ (if b.0 then b else d).0
picked_same (true, x) (true, y) c d e f = refl
picked_same (true, x) (false, y) c d e f = cc
picked_same (false, x) (true, y) c d e f = cc
picked_same (false, x) (false, y) c d e f = f

module _ (re : Re2) where
  match_source_any :
      (s : RouteRuleSource) (a b : ServiceKey) (metadata : Metadata) (p q : String)
      → (match_source re s a b metadata p).0 ≡ (match_source re s a b metadata q).0
  unfolding match_source map_match_collect
  match_source_any s a b metadata p q = ground arith

  match_sources_any :
      (info : ServiceInfo) (dst_service : ServiceKey) (ss : List RouteRuleSource) (p q : String)
      → (match_sources re info dst_service ss p).0 ≡ (match_sources re info dst_service ss q).0
  unfolding match_sources
  match_sources_any info dst_service [] p q = refl
  match_sources_any info dst_service (s ∷ ss) p q =
      let at : String → Bool × String =
        match_source re s info.service_key_ dst_service info.metadata_ in
      picked_same (at p) (at q) (match_sources re info dst_service ss (at p).1)
        (match_sources re info dst_service ss (at q).1)
        (match_source_any s info.service_key_ dst_service info.metadata_ p q)
        (match_sources_any info dst_service ss (at p).1 (at q).1)

  -- What a rule finds of the parameters before does not bear on whether it matches.
  rule_match_source_any :
      (rule : RouteRule) (info : Option ServiceInfo) (dst_service : ServiceKey) (p q : String)
      → (rule_match_source re rule info dst_service p).0
        ≡ (rule_match_source re rule info dst_service q).0
  unfolding rule_match_source
  rule_match_source_any rule none dst_service p q = ground arith
  rule_match_source_any rule (some info) dst_service p q =
      ground (arith, match_sources_any info dst_service rule.sources_ p q)

module _ (re : Re2) (info : Option ServiceInfo) (dst_service : ServiceKey) where
  -- Whether a rule matches the request.
  abbrev pub matches : RouteRule → Bool
  matches rule = (rule_match_source re rule info dst_service []).0

  -- The index is that of the first rule that matches.
  abbrev pub IsFirst : ℕ → List RouteRule → Type 0
  IsFirst i [] = ⊥
  IsFirst zero (rule ∷ rules) = matches rule ≡ true
  IsFirst (suc i) (rule ∷ rules) = (matches rule ≡ false) × IsFirst i rules

  abbrev pub NoneMatch : List RouteRule → Type 0
  NoneMatch [] = Unit {0}
  NoneMatch (rule ∷ rules) = (matches rule ≡ false) × NoneMatch rules

  -- What RouteMatch should do with the inbound rules and, where there are any, the outbound rules:
  -- whether it finds, which index it sets, and the flag that tells the list.
  pub data Outcome (inbounds : List RouteRule) (src : Option (List RouteRule)) (flag : Bool)
      : Bool → Option ℕ → Bool → Type 0 where
    inbound : (i : ℕ) → IsFirst i inbounds → Outcome inbounds src flag true (some i) false
    inbound_refused : inbounds ≢ [] → NoneMatch inbounds → Outcome inbounds src flag false none flag
    outbound :
        (outs : List RouteRule) (i : ℕ)
        → inbounds ≡ []
        → src ≡ some outs
        → IsFirst i outs
        → Outcome inbounds src flag true (some i) true
    outbound_refused :
        (outs : List RouteRule)
        → inbounds ≡ []
        → src ≡ some outs
        → outs ≢ []
        → NoneMatch outs
        → Outcome inbounds src flag false none flag
    no_rules :
        inbounds ≡ [] → (src ≡ none) ⊎ (src ≡ some []) → Outcome inbounds src flag true none flag

  -- The loop finds the first, and otherwise none matches.
  bound_loop-IsFirst :
      (rules : List RouteRule) (k : ℕ) (p : String)
      → (((bound_loop re info dst_service rules k p).0 ≡ none) × NoneMatch rules)
        ⊎ ((i : ℕ) × (((bound_loop re info dst_service rules k p).0 ≡ some (k + i))
              × IsFirst i rules))
  unfolding bound_loop
  bound_loop-IsFirst [] k p = inl (refl, tt)
  bound_loop-IsFirst (rule ∷ rules) k p =
      let same = rule_match_source_any re rule info dst_service p [] in
      elim (Bool-cases (rule_match_source re rule info dst_service p).0) [
        | inl e ↦ rw e (inr (0, (ground arith, sym same ∙ e)))
        | inr e ↦
            let q = (rule_match_source re rule info dst_service p).1 in
            rw e (elim (bound_loop-IsFirst rules (suc k) q) [
              | inl (n, a) ↦ inl (n, (sym same ∙ e, a))
              | inr (i, (n, f)) ↦ inr (suc i, (rw n (ground arith), (sym same ∙ e, f)))
            ])
      ]

  bound_loop_from :
      (rules : List RouteRule) (p : String)
      → (((bound_loop re info dst_service rules 0 p).0 ≡ none) × NoneMatch rules)
        ⊎ ((i : ℕ) × (((bound_loop re info dst_service rules 0 p).0 ≡ some i) × IsFirst i rules))
  bound_loop_from rules p = elim (bound_loop-IsFirst rules 0 p) [
    | inl n ↦ inl n
    | inr (i, (e, f)) ↦ let z : 0 + i ≡ i = omega arith in inr (i, (e ∙ ap some z, f))
  ]

  abbrev RouteOutcome : List RouteRule → Option (List RouteRule) → Bool → Matched → Type 0
  RouteOutcome inbounds src flag r =
      Outcome inbounds src flag r.found r.matched_route r.match_outbounds

  -- RouteMatch takes the first inbound rule of the callee that matches; it finds nothing where there
  -- are inbound rules and none matches; it takes the first outbound rule of the caller that matches
  -- where the callee has no inbound rules; it finds nothing where the caller has outbound rules and
  -- none matches; and without any rules it succeeds without one. The flag tells the list that the
  -- index is of, and is left as it was where there is no index.
  pub route_match-Outcome :
      (inbounds : List RouteRule) (src : Option (List RouteRule)) (flag : Bool) (p : String)
      → RouteOutcome inbounds src flag (route_match re info dst_service inbounds src flag p)
  unfolding route_match bound_loop
  route_match-Outcome [] none flag p = no_rules refl (inl refl)
  route_match-Outcome [] (some []) flag p = no_rules refl (inr refl)
  route_match-Outcome [] (some (o ∷ os)) flag p = elim (bound_loop_from (o ∷ os) p) [
    | inr (i, (e, f)) ↦ rw (route_match, e) (outbound (o ∷ os) i refl refl f)
    | inl (e, a) ↦ rw (route_match, e) (outbound_refused (o ∷ os) refl refl (λ q. cc) a)
  ]
  route_match-Outcome (r ∷ rs) src flag p = elim (bound_loop_from (r ∷ rs) p) [
    | inr (i, (e, f)) ↦ rw (route_match, e) (inbound i f)
    | inl (e, a) ↦ rw (route_match, e) (inbound_refused (λ q. cc) a)
  ]
