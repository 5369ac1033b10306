-- ===== src/Router/Canary/NeverEmpty.antt =====
-- How many instances CanaryServiceRouter's calculations keep.
use polaris_cpp.Base.{
  ℕ, ◌+◌, true, false, List, [], ◌∷◌, length, Key, lookup, ◌≡◌, ◌≢◌, refl, arith, inl, inr, ap, ◌∙◌,
  sym, Option-cases,
}
use polaris_cpp.Router.Instances.{Instance, tier, first_tier_empty}
use polaris_cpp.Router.Canary.{
  Vectors, Kind, no_split, vectors_of, kind_without_value, kind_with_value, calculate_without_value,
  calculate_with_value, four_tiers, six_tiers,
}

-- The instances in all vectors.
abbrev total : {S : Type 0} → Vectors S → ℕ
total v =
    length v.select.healthy_
    + length v.select.unhealthy_
    + length v.normal.healthy_
    + length v.normal.unhealthy_
    + length v.other.healthy_
    + length v.other.unhealthy_

total-vectors_of :
    {S : Type 0} (unhealthy_set : List ℕ) (kind : Instance S → Kind) (is : List (Instance S))
    → total (vectors_of unhealthy_set kind is) ≡ length is
unfolding vectors_of
total-vectors_of unhealthy_set kind [] = refl
total-vectors_of unhealthy_set kind (i ∷ is) =
    ground (arith, total-vectors_of unhealthy_set kind is)

length_zero : {A : Type 0} (xs : List A) → length xs ≡ 0 → xs ≡ []
length_zero [] e = refl
length_zero (x ∷ xs) e = ground (arith, e)

module _ {S : Type 0} ⦃key : Key S⦄ (canary : S) where
  -- Without a value no instance is normal.
  no_normal :
      (unhealthy_set : List ℕ) (is : List (Instance S))
      → (vectors_of unhealthy_set (kind_without_value canary) is).normal ≡ no_split
  unfolding vectors_of kind_without_value
  no_normal unhealthy_set [] = refl
  no_normal unhealthy_set (i ∷ is) = elim (Option-cases (lookup canary i.metadata)) [
    | inl e ↦ rw (kind_without_value, e) (no_normal unhealthy_set is)
    | inr (v, e) ↦ rw (kind_without_value, e) (no_normal unhealthy_set is)
  ]

  -- Neither calculation leaves a caller without an instance when there is one.
  pub canary_never_empty :
      (instances : List (Instance S)) (canary_value : S) (unhealthy_set : List ℕ)
      → instances ≢ []
      → ((calculate_without_value canary instances unhealthy_set).result ≢ [])
        × ((calculate_with_value canary instances canary_value unhealthy_set).result ≢ [])
  unfolding calculate_without_value calculate_with_value
  canary_never_empty instances canary_value unhealthy_set n =
      let v : Vectors S = vectors_of unhealthy_set (kind_without_value canary) instances in
      let w : Vectors S =
        vectors_of unhealthy_set (kind_with_value canary canary_value) instances in
      (
        λ e. n (
            length_zero instances (
              let t =
                first_tier_empty
                  (tier v.select.healthy_ false
                    ∷ tier v.other.healthy_ true
                    ∷ tier v.select.unhealthy_ true
                    ∷ tier v.other.unhealthy_ true
                    ∷ [])
                  (ap (λ c. c.result)
                      (sym (
                        four_tiers v.select.healthy_ v.other.healthy_ v.select.unhealthy_
                          v.other.unhealthy_))
                    ∙ e) in
              let m = no_normal unhealthy_set instances in
              let h : length v.normal.healthy_ + length v.normal.unhealthy_ ≡ 0 =
                ap (λ s. length s.healthy_ + length s.unhealthy_) m in
              omega (
                arith,
                t,
                h,
                total-vectors_of unhealthy_set (kind_without_value canary) instances,
              ))),
        λ e. n (
            length_zero instances (
              let t =
                first_tier_empty
                  (tier w.select.healthy_ false
                    ∷ tier w.normal.healthy_ true
                    ∷ tier w.other.healthy_ true
                    ∷ tier w.select.unhealthy_ true
                    ∷ tier w.normal.unhealthy_ true
                    ∷ tier w.other.unhealthy_ true
                    ∷ [])
                  (ap (λ c. c.result)
                      (sym (
                        six_tiers w.select.healthy_ w.normal.healthy_ w.other.healthy_
                          w.select.unhealthy_ w.normal.unhealthy_ w.other.unhealthy_))
                    ∙ e) in
              omega (
                arith,
                t,
                total-vectors_of unhealthy_set (kind_with_value canary canary_value) instances,
              ))),
      )
