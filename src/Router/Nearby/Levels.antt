-- ===== src/Router/Nearby/Levels.antt =====
-- The levels that CalculateSet fills.
use polaris_cpp.Base.{
  ℕ, zero, suc, ◌≤◌, ◌<◌, List, [], ◌∷◌, ◌++◌, length, set, replicate, Key, ◌==◌, if◌then◌else◌,
  not, ◌&&◌, ◌≡◌, refl, ap, ◌∙◌, arith, inl, inr, Bool-cases, length-set, length-replicate,
}
use mathlib.Core.List.{append-nil, append_assoc}
use polaris_cpp.Router.NearbyConfig.{Location, NearbyRouterConfig}
use polaris_cpp.Router.Instances.{Instance, healthy, filter}
use polaris_cpp.Router.Nearby.{
  NearbyRouterSet, empty_set, fresh_data, at, push_instance, level_of, set_loop,
}

module _ {S : Type 0} where
  at-set :
      (data_ : List (NearbyRouterSet S)) (l k : ℕ) (s : NearbyRouterSet S)
      → l < length data_
      → at (set data_ l s) k ≡ (if k == l then s else at data_ k)
  at-set [] l k s h = ground (arith, h)
  at-set (x ∷ xs) zero zero s h = refl
  at-set (x ∷ xs) zero (suc k) s h = ground arith
  at-set (x ∷ xs) (suc l) zero s h = ground arith
  at-set (x ∷ xs) (suc l) (suc k) s h = ground (arith, at-set xs l k s)

  at-fresh : (n k : ℕ) → at {S = S} (replicate n empty_set) k ≡ empty_set
  at-fresh zero k = refl
  at-fresh (suc n) zero = refl
  at-fresh (suc n) (suc k) = at-fresh n k

  -- The instances of a list at a level.
  abbrev pub level_set : List ℕ → (Instance S → ℕ) → ℕ → List (Instance S) → NearbyRouterSet S
  level_set unhealthy_set level k is = record {
    healthy_ = filter (λ i. (k == level i) && healthy unhealthy_set i) is;
    unhealthy_ = filter (λ i. (k == level i) && not (healthy unhealthy_set i)) is;
  }

  length-push_instance :
      (unhealthy_set : List ℕ) (data_ : List (NearbyRouterSet S)) (l : ℕ) (i : Instance S)
      → length (push_instance unhealthy_set data_ l i) ≡ length data_
  unfolding push_instance
  length-push_instance unhealthy_set data_ l i =
      let s = at data_ l in
      elim (Bool-cases (healthy unhealthy_set i)) [
        | inl e ↦ rw e (length-set data_ l (record s { healthy_ = s.healthy_ ++ i ∷ [] }))
        | inr e ↦ rw e (length-set data_ l (record s { unhealthy_ = s.unhealthy_ ++ i ∷ [] }))
      ]

  push_instance-at :
      (unhealthy_set : List ℕ) (data_ : List (NearbyRouterSet S)) (l k : ℕ) (i : Instance S)
      → l < length data_
      → at (push_instance unhealthy_set data_ l i) k ≡ (
          if k == l
          then (if healthy unhealthy_set i
              then record (at data_ l) { healthy_ = (at data_ l).healthy_ ++ i ∷ [] }
              else record (at data_ l) { unhealthy_ = (at data_ l).unhealthy_ ++ i ∷ [] })
          else at data_ k)
  unfolding push_instance
  push_instance-at unhealthy_set data_ l k i h =
      let s = at data_ l in
      elim (Bool-cases (healthy unhealthy_set i)) [
        | inl e ↦ rw e (at-set data_ l k (record s { healthy_ = s.healthy_ ++ i ∷ [] }) h)
        | inr e ↦ rw e (at-set data_ l k (record s { unhealthy_ = s.unhealthy_ ++ i ∷ [] }) h)
      ]

  -- A level's set with more instances behind its own.
  abbrev grown : NearbyRouterSet S → NearbyRouterSet S → NearbyRouterSet S
  grown s t = record {
    healthy_ = s.healthy_ ++ t.healthy_;
    unhealthy_ = s.unhealthy_ ++ t.unhealthy_;
  }

  push_grown :
      (unhealthy_set : List ℕ) (data_ : List (NearbyRouterSet S)) (level : Instance S → ℕ) (k : ℕ)
      (i : Instance S) (is : List (Instance S))
      → level i < length data_
      → grown
          (at (push_instance unhealthy_set data_ (level i) i) k)
          (level_set unhealthy_set level k is)
        ≡ grown (at data_ k) (level_set unhealthy_set level k (i ∷ is))
  push_grown unhealthy_set data_ level k i is h =
      rw (push_instance-at unhealthy_set data_ (level i) k i h) (elim (Bool-cases (k == level i)) [
        | inl e ↦
            let f : at data_ k ≡ at data_ (level i) = ap (at data_) (ground (arith, e)) in
            elim (Bool-cases (healthy unhealthy_set i)) [
              | inl g ↦
                  rw
                    (
                      e,
                      g,
                      f,
                      append_assoc (at data_ (level i)).healthy_ (i ∷ [])
                          (level_set unhealthy_set level k is).healthy_,
                    )
                    refl
              | inr g ↦
                  rw
                    (
                      e,
                      g,
                      f,
                      append_assoc (at data_ (level i)).unhealthy_ (i ∷ [])
                          (level_set unhealthy_set level k is).unhealthy_,
                    )
                    refl
            ]
        | inr e ↦ rw e refl
      ])

  set_loop-at :
      (unhealthy_set : List ℕ) (level : Instance S → ℕ) (data_ : List (NearbyRouterSet S))
      (is : List (Instance S)) (k : ℕ)
      → ((i : Instance S) → level i < length data_)
      → at (set_loop unhealthy_set level data_ is) k
        ≡ grown (at data_ k) (level_set unhealthy_set level k is)
  unfolding set_loop
  set_loop-at unhealthy_set level data_ [] k h =
      rw (append-nil (at data_ k).healthy_, append-nil (at data_ k).unhealthy_) refl
  set_loop-at unhealthy_set level data_ (i ∷ is) k h =
      let bound : (j : Instance S)
          → level j < length (push_instance unhealthy_set data_ (level i) i) =
        λ j. omega (arith, h j, length-push_instance unhealthy_set data_ (level i) i) in
      set_loop-at unhealthy_set level (push_instance unhealthy_set data_ (level i) i) is k bound
      ∙ push_grown unhealthy_set data_ level k i is (h i)

  -- A fresh cluster's levels hold what the two tests say.
  pub set_loop-fresh :
      (config : NearbyRouterConfig) (unhealthy_set : List ℕ) (level : Instance S → ℕ)
      (is : List (Instance S)) (k : ℕ)
      → ((i : Instance S) → level i ≤ config.match_level_)
      → at (set_loop unhealthy_set level (fresh_data config) is) k
        ≡ level_set unhealthy_set level k is
  set_loop-fresh config unhealthy_set level is k h =
      set_loop-at unhealthy_set level (fresh_data config) is k
        (λ i. omega (arith, h i, length-replicate (suc config.match_level_) (empty_set {S = S})))
      ∙ ap (λ s. grown s (level_set unhealthy_set level k is))
          (at-fresh (suc config.match_level_) k)

module _ {S : Type 0} ⦃key : Key S⦄ where
  pub level_of_le : (m : ℕ) (location : Location S) (i : Instance S) → level_of m location i ≤ m
  unfolding level_of
  level_of_le m location i = ground arith
