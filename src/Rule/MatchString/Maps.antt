-- ===== src/Rule/MatchString/Maps.antt =====
-- The three MapMatch of polaris/model/match_string.cpp against a description entry by entry.
use polaris_cpp.Base.{
  suc, ◌≤◌, Bool, true, false, none, some, List, [], ◌∷◌, ◌++◌, length, ltb, if◌then◌else◌, ◌&&◌,
  ◌≡◌, ◌≢◌, refl, ap, ◌∙◌, arith, inl, inr, Bool-cases, Option-cases, Key, String, string_key,
  lookup, erase, lookup-erase, IsUnique,
}
use polaris_cpp.Rule.MatchString.{
  Re2, MatchString, Metadata, RuleMetadata, is_parameter, comma, match_value, match_parameter,
  entry_loop, map_match, collect_loop, map_match_collect, given_loop, map_match_given,
}

module _ {K V : Type 0} ⦃key : Key K⦄ where
  length-erase_le : (k : K) (m : List (K × V)) → length (erase k m) ≤ length m
  unfolding erase
  length-erase_le k [] = omega arith
  length-erase_le k ((j, v) ∷ m) = ground (arith, length-erase_le k m)

  length-erase :
      (k : K) (m : List (K × V)) → lookup k m ≢ none → suc (length (erase k m)) ≤ length m
  unfolding erase lookup
  length-erase k [] h = elim (h refl) [ ]
  length-erase k ((j, v) ∷ m) h = ground (arith, length-erase k m, length-erase_le k m, h)

module _ {K V W : Type 0} ⦃key : Key K⦄ where
  -- A map whose keys are all in another is no larger.
  pub length-keys_le :
      (m : List (K × V)) (n : List (K × W))
      → IsUnique m
      → ((j : K) → lookup j m ≢ none → lookup j n ≢ none)
      → length m ≤ length n
  unfolding lookup
  length-keys_le [] n u h = omega arith
  length-keys_le ((k, v) ∷ m) n u h =
      let rest : length m ≤ length (erase k n) =
        length-keys_le m (erase k n) u.1
          (λ j i. let a = lookup-erase k j n in ground (arith, a, i, u.0, h j)) in
      let here = length-erase k n (ground (arith, h k)) in omega (arith, rest, here)

-- The conjunction of a test over the entries of a rule's metadata.
abbrev pub every : (String → MatchString → Bool) → RuleMetadata → Bool
every test [] = true
every test ((k, m) ∷ rules) = test k m && every test rules

every_found :
    (test : String → MatchString → Bool) (metadata : Metadata) (rules : RuleMetadata)
    → ((k : String) (m : MatchString) → test k m ≡ true → lookup k metadata ≢ none)
    → every test rules ≡ true
    → (j : String) → lookup j rules ≢ none
    → lookup j metadata ≢ none
unfolding lookup
every_found test metadata [] f e j h = elim (h refl) [ ]
every_found test metadata ((k, m) ∷ rules) f e j h =
    let a : test k m ≡ true = ground (arith, e) in
    let b : every test rules ≡ true = ground (arith, e) in
    ground (arith, f k m a, every_found test metadata rules f b j, h)

module _ (re : Re2) (metadata : Metadata) where
  -- The entry's key is in the metadata, and its value matches.
  abbrev pub accepts : String → MatchString → Bool
  accepts k m = elim (lookup k metadata) [ none ↦ false | some value ↦ match_value re m value ]

  -- The same, where a parameter's value is tested with the one that is given for its key.
  abbrev pub accepts_given : Metadata → String → MatchString → Bool
  accepts_given parameters k m = elim (lookup k metadata) [
    | none ↦ false
    | some value ↦
        if is_parameter m
        then elim (lookup k parameters) [
          | none ↦ false
          | some given ↦ match_parameter re m given value
        ]
        else match_value re m value
  ]

  accepts_found : (k : String) (m : MatchString) → accepts k m ≡ true → lookup k metadata ≢ none
  accepts_found k m e = ground (arith, e)

  accepts_given_found :
      (parameters : Metadata) (k : String) (m : MatchString)
      → accepts_given parameters k m ≡ true
      → lookup k metadata ≢ none
  accepts_given_found parameters k m e = ground (arith, e)

  entry_loop-every : (rules : RuleMetadata) → entry_loop re rules metadata ≡ every accepts rules
  unfolding entry_loop match_value
  entry_loop-every [] = refl
  entry_loop-every ((k, m) ∷ rules) = ground (arith, entry_loop-every rules)

  collect_loop-every :
      (rules : RuleMetadata) (separator parameters : String)
      → (collect_loop re rules metadata separator parameters).0 ≡ every accepts rules
  unfolding collect_loop match_value
  collect_loop-every [] separator parameters = refl
  collect_loop-every ((k, m) ∷ rules) separator parameters =
      elim (Option-cases (lookup k metadata)) [
        | inl e ↦ ground (arith, e)
        | inr (value, e) ↦
            let a = collect_loop-every rules comma (separator ++ value) in
            let b = collect_loop-every rules separator parameters in ground (arith, a, b, e)
      ]

  given_loop-every :
      (parameters : Metadata) (rules : RuleMetadata)
      → given_loop re rules metadata parameters ≡ every (accepts_given parameters) rules
  unfolding given_loop match_value match_parameter
  given_loop-every parameters [] = refl
  given_loop-every parameters ((k, m) ∷ rules) = ground (arith, given_loop-every parameters rules)

  -- The test of the sizes rejects nothing that the entries accept.
  sized :
      (test : String → MatchString → Bool) (rules : RuleMetadata)
      → IsUnique rules
      → ((k : String) (m : MatchString) → test k m ≡ true → lookup k metadata ≢ none)
      → (if ltb (length metadata) (length rules) then false else every test rules)
        ≡ every test rules
  sized test rules u f = elim (Bool-cases (every test rules)) [
    | inr e ↦ rw e (ground arith)
    | inl e ↦
        let le = length-keys_le rules metadata u (every_found test metadata rules f e) in
        rw e (ground (arith, le))
  ]

  -- Of the three MapMatch, the one without parameters and the one that returns them accept metadata
  -- exactly when every entry of the rule finds its key there with a value that matches, and the one
  -- that is given parameters exactly when, besides, the value of a parameter matches the given one:
  -- the test of the sizes that they begin with rejects nothing more.
  pub map_match-accepts :
      (rules : RuleMetadata) (parameters : Metadata) (old : String)
      → IsUnique rules
      → (map_match re rules metadata ≡ every accepts rules)
        × ((map_match_collect re rules metadata old).0 ≡ every accepts rules)
        × (map_match_given re rules metadata parameters ≡ every (accepts_given parameters) rules)
  unfolding map_match map_match_collect map_match_given
  map_match-accepts rules parameters old u =
      let plain = sized accepts rules u accepts_found in
      (
        rw (entry_loop-every rules) plain,
        ground (arith, collect_loop-every rules [] [], plain),
        rw (given_loop-every parameters rules)
            (sized (accepts_given parameters) rules u (accepts_given_found parameters)),
      )

-- The values of the rule's parameters, in the rule's order.
abbrev pub parameter_values : Metadata → RuleMetadata → List String
parameter_values metadata [] = []
parameter_values metadata ((k, m) ∷ rules) =
    let rest = parameter_values metadata rules in
    elim (lookup k metadata) [
      | none ↦ rest
      | some value ↦ if is_parameter m then value ∷ rest else rest
    ]

-- What the loop makes of the values: the last one, behind a separator where it is not the first.
abbrev pub overwritten : String → String → List String → String
overwritten separator old [] = old
overwritten separator old (v ∷ vs) = overwritten comma (separator ++ v) vs

overwritten_last :
    (v w : String) (vs : List String) → overwritten comma v (vs ++ w ∷ []) ≡ comma ++ w
overwritten_last v w [] = refl
overwritten_last v w (u ∷ vs) = overwritten_last (comma ++ u) w vs

module _ (re : Re2) (metadata : Metadata) where
  collect_loop_values :
      (rules : RuleMetadata) (separator parameters : String)
      → (collect_loop re rules metadata separator parameters).0 ≡ true
      → (collect_loop re rules metadata separator parameters).1
        ≡ overwritten separator parameters (parameter_values metadata rules)
  unfolding collect_loop match_value
  collect_loop_values [] separator parameters e = refl
  collect_loop_values ((k, m) ∷ rules) separator parameters e =
      elim (Option-cases (lookup k metadata)) [
        | inl o ↦ ground (arith, o, e)
        | inr (value, o) ↦
            let a = collect_loop_values rules comma (separator ++ value) in
            let b = collect_loop_values rules separator parameters in ground (arith, a, b, o, e)
      ]

  -- The argument that MapMatch fills with the values of the parameters is not appended to: for a rule
  -- with two or more parameters, metadata that matches gives the value of the last one behind a
  -- separator, whatever the values before it are, so that requests that differ only in those get
  -- the same string.
  pub parameters_last :
      (rules : RuleMetadata) (old v w : String) (vs : List String)
      → (map_match_collect re rules metadata old).0 ≡ true
      → parameter_values metadata rules ≡ v ∷ (vs ++ w ∷ [])
      → (map_match_collect re rules metadata old).1 ≡ comma ++ w
  unfolding map_match_collect
  parameters_last rules old v w vs e p = elim (Bool-cases (ltb (length metadata) (length rules))) [
    | inl t ↦ ground (arith, t, e)
    | inr t ↦ rw t (
        collect_loop_values rules [] [] (ground (arith, t, e))
        ∙ ap (overwritten [] []) p
        ∙ overwritten_last v w vs)
  ]
