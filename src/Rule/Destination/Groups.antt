-- ===== src/Rule/Destination/Groups.antt =====
-- What RouteRuleDestination::CalculateSet of polaris/model/route_rule_destination.cpp puts into the
-- groups.
use polaris_cpp.Base.{
  ℕ, Bool, true, false, Option, none, some, List, [], ◌∷◌, ◌++◌, if◌then◌else◌, ◌&&◌, ◌≡◌, refl,
  sym, ap, ◌∙◌, arith, inl, inr, Bool-cases, Option-cases, String, string_key, less, lookup,
  lookup-put,
}
use mathlib.Core.List.{append-nil, append_assoc}
use polaris_cpp.Router.Instances.{Instance, same, healthy, Split, split}
use polaris_cpp.Rule.MatchString.{Re2, Metadata, map_match_given}
use polaris_cpp.Rule.Destination.{
  RouteRuleDestination, RuleRouterSet, Groups, subset_of, convert_map_to_str, group_at, push_to,
  add_instance, group_loop, calculate_groups,
}

-- The instances of a group; a group that is not there has none.
abbrev pub members : Option RuleRouterSet → Split String
members none = record { healthy_ = []; unhealthy_ = [] }
members (some set) = record { healthy_ = set.healthy_; unhealthy_ = set.unhealthy_ }

abbrev joined : Split String → Split String → Split String
joined s t = record {
  healthy_ = s.healthy_ ++ t.healthy_;
  unhealthy_ = s.unhealthy_ ++ t.unhealthy_;
}

module _ (re : Re2) (d : RouteRuleDestination) (unhealthy_set : List ℕ)
    (parameters : Metadata) where
  -- The text of an instance's subset.
  abbrev pub id_of : Instance String → String
  id_of i = convert_map_to_str (subset_of d.metadata_ i.metadata parameters)

  -- The instance matches, and its subset has this text.
  abbrev pub in_group : String → Instance String → Bool
  in_group id i = map_match_given re d.metadata_ i.metadata parameters && same (id_of i) id

  abbrev alone : String → Instance String → Split String
  alone id i = split unhealthy_set (in_group id) (i ∷ [])

  add_other :
      (id : String) (i : Instance String) (groups : Groups)
      → in_group id i ≡ false
      → lookup id (add_instance re d unhealthy_set parameters i groups) ≡ lookup id groups
  unfolding add_instance
  add_other id i groups e =
      let ss = subset_of d.metadata_ i.metadata parameters in
      let set = push_to unhealthy_set i (group_at d (id_of i) ss groups) in
      ground (arith, e, lookup-put less (id_of i) id set groups)

  add_own :
      (i : Instance String) (groups : Groups)
      → map_match_given re d.metadata_ i.metadata parameters ≡ true
      → lookup (id_of i) (add_instance re d unhealthy_set parameters i groups)
        ≡ some (
            push_to unhealthy_set i
              (group_at d (id_of i) (subset_of d.metadata_ i.metadata parameters) groups))
  unfolding add_instance
  add_own i groups e =
      let ss = subset_of d.metadata_ i.metadata parameters in
      let set = push_to unhealthy_set i (group_at d (id_of i) ss groups) in
      ground (arith, e, lookup-put less (id_of i) (id_of i) set groups)

  abbrev single : Instance String → Split String
  single i =
      if healthy unhealthy_set i
      then record { healthy_ = i ∷ []; unhealthy_ = [] }
      else record { healthy_ = []; unhealthy_ = i ∷ [] }

  joined_nothing : (s : Split String) → joined s (record { healthy_ = []; unhealthy_ = [] }) ≡ s
  joined_nothing s = rw (append-nil s.healthy_, append-nil s.unhealthy_) refl

  push_members :
      (id : String) (ss : Metadata) (i : Instance String) (groups : Groups)
      → members (some (push_to unhealthy_set i (group_at d id ss groups)))
        ≡ joined (members (lookup id groups)) (single i)
  unfolding push_to group_at
  push_members id ss i groups = elim (Bool-cases (healthy unhealthy_set i)) [
    | inl h ↦ elim (Option-cases (lookup id groups)) [
      | inl e ↦ rw (push_to, h, group_at, e) refl
      | inr (set, e) ↦ rw (push_to, h, group_at, e, append-nil set.unhealthy_) refl
    ]
    | inr h ↦ elim (Option-cases (lookup id groups)) [
      | inl e ↦ rw (push_to, h, group_at, e) refl
      | inr (set, e) ↦ rw (push_to, h, group_at, e, append-nil set.healthy_) refl
    ]
  ]

  -- What one instance does to the members of the group at a text.
  abbrev shown : String → Instance String → Split String
  shown id i = if in_group id i then single i else record { healthy_ = []; unhealthy_ = [] }

  members-add :
      (id : String) (i : Instance String) (groups : Groups)
      → members (lookup id (add_instance re d unhealthy_set parameters i groups))
        ≡ joined (members (lookup id groups)) (shown id i)
  members-add id i groups = elim (Bool-cases (in_group id i)) [
    | inr e ↦ rw (e, add_other id i groups e) (sym (joined_nothing (members (lookup id groups))))
    | inl e ↦
        let ss = subset_of d.metadata_ i.metadata parameters in
        let m : map_match_given re d.metadata_ i.metadata parameters ≡ true = ground (arith, e) in
        let p : id_of i ≡ id = ground (arith, e) in
        rw e (
          ap (λ x. members (lookup x (add_instance re d unhealthy_set parameters i groups))) (sym p)
          ∙ ap members (add_own i groups m)
          ∙ push_members (id_of i) ss i groups
          ∙ ap (λ x. joined (members (lookup x groups)) (single i)) p)
  ]

  shown-split :
      (id : String) (i : Instance String) (is : List (Instance String))
      → joined (shown id i) (split unhealthy_set (in_group id) is)
        ≡ split unhealthy_set (in_group id) (i ∷ is)
  unfolding split
  shown-split id i is = elim (Bool-cases (in_group id i)) [
    | inr e ↦ rw (split, e) refl
    | inl e ↦ elim (Bool-cases (healthy unhealthy_set i)) [
      | inl h ↦ rw (split, e, h) refl
      | inr h ↦ rw (split, e, h) refl
    ]
  ]

  joined_assoc : (s t u : Split String) → joined (joined s t) u ≡ joined s (joined t u)
  joined_assoc s t u =
      rw
        (
          append_assoc s.healthy_ t.healthy_ u.healthy_,
          append_assoc s.unhealthy_ t.unhealthy_ u.unhealthy_,
        )
        refl

  group_loop-split :
      (id : String) (is : List (Instance String)) (groups : Groups)
      → members (lookup id (group_loop re d unhealthy_set parameters is groups))
        ≡ joined (members (lookup id groups)) (split unhealthy_set (in_group id) is)
  unfolding group_loop split
  group_loop-split id [] groups = sym (joined_nothing (members (lookup id groups)))
  group_loop-split id (i ∷ is) groups =
      let rest = split unhealthy_set (in_group id) is in
      let old = members (lookup id groups) in
      group_loop-split id is (add_instance re d unhealthy_set parameters i groups)
      ∙ ap (λ s. joined s rest) (members-add id i groups)
      ∙ joined_assoc old (shown id i) rest
      ∙ ap (joined old) (shown-split id i is)

  -- The group at a text holds, in their order, exactly the instances whose metadata matches the
  -- destination and whose subset has that text, the healthy ones apart from the others; where there
  -- is no such instance it is empty or absent.
  pub calculate_groups-split :
      (id : String) (instances : List (Instance String))
      → members (lookup id (calculate_groups re d unhealthy_set parameters instances))
        ≡ split unhealthy_set (in_group id) instances
  unfolding calculate_groups split lookup
  calculate_groups-split id instances = group_loop-split id instances []
