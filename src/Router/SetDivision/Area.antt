-- ===== src/Router/SetDivision/Area.antt =====
-- Where the instances that SetDivisionServiceRouter of
-- polaris/plugin/service_router/set_division_router.cpp gives for a caller stand.
use polaris_cpp.Base.{
  ℕ, suc, ◌+◌, ◌-◌, ◌≤◌, Bool, true, false, none, some, List, [], ◌∷◌, ◌++◌, take, drop, ◌==◌, ◌&&◌,
  not, ◌≡◌, refl, sym, ap, ◌∙◌, arith, inl, inr, Bool-cases, Option-cases, String, string_key, All,
}
use mathlib.Core.List.{append_assoc}
use polaris_cpp.Router.Instances.{Instance, same, is_empty, filter, healthy}
use polaris_cpp.Router.SetDivision.{
  find_first, find_last, starts_with, get_internal_set_name, enables, has_set_name,
  get_result_with_set_name, match_at, calculate_match_result, some_enables, set_division_value,
  set_division_route,
}
use polaris_cpp.Router.SetDivision.Parts.{first_before_last, parts_join, parts_taken}

-- A string begins with every string that it is a continuation of.
starts_with-append : (p q : String) → starts_with p (p ++ q) ≡ true
unfolding starts_with
starts_with-append [] q = refl
starts_with-append (c ∷ cs) q =
    let e : (c == c) ≡ true = ground arith in rw e (starts_with-append cs q)

same-eq : (a b : String) → same a b ≡ true → a ≡ b
same-eq a b e = ground (arith, e)

All-filter :
    {A : Type 0} (P : A → Type 0) (test : A → Bool) (xs : List A)
    → ((x : A) → test x ≡ true → P x)
    → All P (filter test xs)
All-filter P test [] h = tt
All-filter P test (x ∷ xs) h = elim (Bool-cases (test x)) [
  | inl e ↦ rw e (h x e, All-filter P test xs h)
  | inr e ↦ rw e (All-filter P test xs h)
]

All-kept :
    {A : Type 0} (P : A → Type 0) (test : A → Bool) (xs : List A)
    → All P xs
    → All P (filter test xs)
All-kept P test [] a = tt
All-kept P test (x ∷ xs) (p, a) = elim (Bool-cases (test x)) [
  | inl e ↦ rw e (p, All-kept P test xs a)
  | inr e ↦ rw e (All-kept P test xs a)
]

-- The caller's set and area: its name up to its last point, with it.
abbrev pub area_of : String → String
area_of s = elim (find_last s) [ none ↦ s | some l ↦ take (suc l) s ]

module _ (enable_set_key set_name_key : String) where
  -- An instance that has the division enabled, in an area.
  abbrev pub IsInArea : String → Instance String → Type 0
  IsInArea area i =
      (enables enable_set_key set_name_key i ≡ true)
      × (starts_with area (get_internal_set_name enable_set_key set_name_key i) ≡ true)

  module _ (area group : String) where
    wild-IsInArea :
        (i : Instance String)
        → has_set_name enable_set_key set_name_key area true i ≡ true
        → IsInArea area i
    unfolding has_set_name
    wild-IsInArea i e = ground (arith, e)

    exact-IsInArea :
        (i : Instance String)
        → has_set_name enable_set_key set_name_key (area ++ group) false i ≡ true
        → IsInArea area i
    unfolding has_set_name
    exact-IsInArea i e =
        let n = get_internal_set_name enable_set_key set_name_key i in
        let on : enables enable_set_key set_name_key i ≡ true = ground (arith, e) in
        let s : same n (area ++ group) ≡ true = ground (arith, e) in
        let p : starts_with area n ≡ true =
          ap (starts_with area) (same-eq n (area ++ group) s) ∙ starts_with-append area group in
        (on, p)

  -- A name with two points or more, cut at them.
  module _ (s : String) (f l : ℕ) (e : find_first s ≡ some f) (g : find_last s ≡ some l)
      (n : (f == l) ≡ false) where
    abbrev middle : String
    middle = take (l - f - 1) (drop (f + 1) s)

    abbrev cut : String
    cut = take f s ++ 46 ∷ (middle ++ 46 ∷ [])

    last_is : l ≡ suc (f + (l - f - 1))
    last_is =
        let b = first_before_last s f e in
        let same_last : some b.0 ≡ some l = sym b.1.0 ∙ g in
        let le : f ≤ l = ground (arith, same_last, b.1.1) in ground (arith, le, n)

    cut_join : cut ++ drop (l + 1) s ≡ s
    cut_join =
        let a = take (l - f - 1) (drop (suc f) s) in
        let f1 : f + 1 ≡ suc f = omega arith in
        let l1 : l + 1 ≡ suc l = omega arith in
        rw (f1, l1)
          (append_assoc (take f s) (46 ∷ (a ++ 46 ∷ [])) (drop (suc l) s)
            ∙ ap (λ q. take f s ++ 46 ∷ q) (append_assoc a (46 ∷ []) (drop (suc l) s))
            ∙ parts_join s f (l - f - 1) l e g last_is)

    cut-area_of : cut ≡ area_of s
    cut-area_of =
        let f1 : f + 1 ≡ suc f = omega arith in
        let at_last : area_of s ≡ take (suc l) s =
          ap (λ o. elim o as (λ x. String) [ none ↦ s | some k ↦ take (suc k) s ]) g in
        rw (f1, at_last) (parts_taken s f (l - f - 1) l e g last_is)

    cut_wild : take f s ++ 46 ∷ (middle ++ 46 ∷ 42 ∷ []) ≡ cut ++ 42 ∷ []
    cut_wild = sym (
        append_assoc (take f s) (46 ∷ (middle ++ 46 ∷ [])) (42 ∷ [])
        ∙ ap (λ q. take f s ++ 46 ∷ q) (append_assoc middle (46 ∷ []) (42 ∷ [])))

    match_at-IsInArea :
        (src : List (Instance String))
        → All (IsInArea cut) (match_at enable_set_key set_name_key s f l src)
    unfolding match_at get_result_with_set_name
    match_at-IsInArea src =
        let exactly = get_result_with_set_name enable_set_key set_name_key s src false in
        elim (Bool-cases (same (drop (l + 1) s) (42 ∷ []))) [
          | inl t ↦
              rw (match_at, t)
                (All-filter (IsInArea cut) (has_set_name enable_set_key set_name_key cut true) src
                  (wild-IsInArea cut []))
          | inr t ↦ elim (Bool-cases (is_empty exactly)) [
            | inl z ↦
                rw (match_at, t, z, cut_wild)
                  (All-filter (IsInArea cut)
                    (has_set_name enable_set_key set_name_key (cut ++ 42 ∷ []) false) src
                    (exact-IsInArea cut (42 ∷ [])))
            | inr z ↦
                rw (match_at, t, z)
                  (All-filter (IsInArea cut) (has_set_name enable_set_key set_name_key s false) src
                    (λ i h. exact-IsInArea cut (drop (l + 1) s) i (rw (cut_join) h)))
          ]
        ]

    own-IsInArea :
        (src : List (Instance String))
        → All (IsInArea (area_of s)) (match_at enable_set_key set_name_key s f l src)
    own-IsInArea src = rw cut-area_of at match_at-IsInArea src

    match_is :
        (src : List (Instance String))
        → calculate_match_result enable_set_key set_name_key s src
          ≡ match_at enable_set_key set_name_key s f l src
    unfolding calculate_match_result
    match_is src = rw (calculate_match_result, g, e, n) refl

  no_parts :
      (s : String) (src : List (Instance String))
      → find_first s ≡ find_last s
      → calculate_match_result enable_set_key set_name_key s src ≡ []
  unfolding calculate_match_result
  no_parts s src h = ground (arith, h)

  no_point :
      (s : String) (src : List (Instance String))
      → find_first s ≡ none
      → calculate_match_result enable_set_key set_name_key s src ≡ []
  unfolding calculate_match_result
  no_point s src h = ground (arith, h)

  match-IsInArea :
      (s : String) (src : List (Instance String))
      → All (IsInArea (area_of s)) (calculate_match_result enable_set_key set_name_key s src)
  match-IsInArea s src = elim (Option-cases (find_first s)) [
    | inl n ↦ rw (no_point s src n) tt
    | inr (f, e) ↦
        let b = first_before_last s f e in
        elim (Bool-cases (f == b.0)) [
          | inl t ↦ rw (no_parts s src (ground (arith, e, b.1.0, t))) tt
          | inr t ↦ rw (match_is s f b.0 e b.1.0 t src) (own-IsInArea s f b.0 e b.1.0 t src)
        ]
  ]

  value-IsInArea :
      (s : String) (src : List (Instance String)) (unhealthy_set : List ℕ)
      → All
          (IsInArea (area_of s))
          (set_division_value enable_set_key set_name_key s src unhealthy_set).instances
  unfolding set_division_value
  value-IsInArea s src unhealthy_set =
      let result = calculate_match_result enable_set_key set_name_key s src in
      let kept = filter (healthy unhealthy_set) result in
      let a = match-IsInArea s src in
      elim (Bool-cases (some_enables enable_set_key set_name_key s src)) [
        | inr t ↦ rw (set_division_value, t) tt
        | inl t ↦ elim (Bool-cases (not (is_empty kept))) [
          | inl z ↦
              rw (set_division_value, t, z)
                (All-kept (IsInArea (area_of s)) (healthy unhealthy_set) result a)
          | inr z ↦ rw (set_division_value, t, z) a
        ]
      ]

  -- Where the set division gives a caller instances, forced or not, healthy or not, each of them has
  -- the division enabled, and its set name begins as the caller's does up to the last point. (Where
  -- it gives none, since no instance has the division enabled for that caller and it is not forced,
  -- DoRoute passes all instances on, and nothing is said of those.)
  pub set_division_route-IsInArea :
      (name : String) (enable_set_force : Bool) (src : List (Instance String))
      (unhealthy_set : List ℕ) (result : List (Instance String))
      → set_division_route enable_set_key set_name_key
          (some name)
          enable_set_force
          src
          unhealthy_set
        ≡ some result
      → All (IsInArea (area_of name)) result
  unfolding set_division_route
  set_division_route-IsInArea name enable_set_force src unhealthy_set result e =
      let value = set_division_value enable_set_key set_name_key name src unhealthy_set in
      elim (Bool-cases (not enable_set_force && not value.enable_set)) [
        | inl t ↦ let h : none ≡ some result = rw (set_division_route, t) at e in cc
        | inr t ↦
            let h : some value.instances ≡ some result = rw (set_division_route, t) at e in
            let same_list : value.instances ≡ result = ground (arith, h) in
            rw (sym same_list) (value-IsInArea name src unhealthy_set)
      ]
