-- ===== src/Router/SetTests.antt =====
-- The set division at concrete instances. The key of the flag is "e" (101), of the set name "s" (115).
use polaris_cpp.Base.{
  ℕ, false, some, [], ◌∷◌, ◌≡◌, refl, All, String, string_key, lookup, ℕ_discrete,
}
use polaris_cpp.Router.Instances.{Instance, count}
use polaris_cpp.Router.SetDivision.{set_division_route}
use polaris_cpp.Router.SetDivision.Area.{IsInArea, area_of, set_division_route-IsInArea}

abbrev instance_in : ℕ → String → Instance String
instance_in address set_name = record {
  address = address;
  metadata = (101 ∷ [], 89 ∷ []) ∷ (115 ∷ [], set_name) ∷ [];
  region = [];
  zone = [];
  campus = [];
}

-- "a.b.1", "a.b.*" and "a.c.1".
abbrev caller_name : String
caller_name = 97 ∷ 46 ∷ 98 ∷ 46 ∷ 49 ∷ []

abbrev group_star : Instance String
group_star = instance_in 2 (97 ∷ 46 ∷ 98 ∷ 46 ∷ 42 ∷ [])

abbrev other_area : Instance String
other_area = instance_in 3 (97 ∷ 46 ∷ 99 ∷ 46 ∷ 49 ∷ [])

-- No instance has the caller's name, so the one for every group of its area is taken.
falls_to_star :
    set_division_route
      (101 ∷ [])
      (115 ∷ [])
      (some caller_name)
      false
      (other_area ∷ group_star ∷ [])
      []
    ≡ some (group_star ∷ [])
unfolding set_division_route lookup ℕ_discrete count
falls_to_star = refl

set_division_route-IsInArea_example :
    All (IsInArea (101 ∷ []) (115 ∷ []) (area_of caller_name)) (group_star ∷ [])
set_division_route-IsInArea_example =
    set_division_route-IsInArea (101 ∷ []) (115 ∷ []) caller_name false
      (other_area ∷ group_star ∷ []) [] (group_star ∷ []) falls_to_star
