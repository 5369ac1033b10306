-- ===== src/CircuitBreaker/Slots.antt =====
-- The breakers' `RcuUnorderedMap` from instance ids to statuses, as its callers see it: one status
-- and one access time for each id. (polaris/cache/rcu_unordered_map.h has the double buffer.)
use polaris_cpp.Base.{ℕ, ◌≡◌, List, [], ◌∷◌, Key, erase, leb, if◌then◌else◌, ltb, ◌-◌, ◌⊎◌}

pub record Slot (S : Type 0) : Type 0 where
  pub used_time : ℕ
  pub value : S

-- Time::CoarseSteadyTimeSub.
unfoldable pub coarse_steady_time_sub : ℕ → ℕ → ℕ
coarse_steady_time_sub current sub_ms = if ltb sub_ms current then current - sub_ms else 0

module _ {K S : Type 0} where
  -- CheckExpired: the keys that nobody has read since `min_access_time`.
  unfoldable pub check_expired : ℕ → List (K × Slot S) → List K
  check_expired min_access_time [] = []
  check_expired min_access_time ((k, s) ∷ m) =
      let rest = check_expired min_access_time m in
      if leb s.used_time min_access_time then k ∷ rest else rest

module _ {K S : Type 0} ⦃key : Key K⦄ where
  -- Delete.
  unfoldable pub delete_keys : List K → List (K × Slot S) → List (K × Slot S)
  delete_keys [] m = m
  delete_keys (k ∷ ks) m = delete_keys ks (erase k m)

abbrev pub Among : {K : Type 0} → K → List K → Type 0
Among k [] = ⊥
Among k (j ∷ js) = (k ≡ j) ⊎ Among k js
