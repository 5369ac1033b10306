-- ===== src/Router/SetDivision/Parts.antt =====
-- The parts of a set name between its points.
use polaris_cpp.Base.{
  ℕ, zero, suc, ◌+◌, ◌≤◌, none, some, [], ◌∷◌, ◌++◌, take, drop, ◌==◌, ◌≡◌, refl, sym, ap, arith,
  inl, inr, Bool-cases, Option-cases, String,
}
use polaris_cpp.Router.SetDivision.{find_first, find_last}

-- The last point, and what stands around it.
pub last_parts : (s : String) (k : ℕ) → find_last s ≡ some k → take k s ++ 46 ∷ drop (suc k) s ≡ s
unfolding find_last
last_parts [] k e = cc
last_parts (c ∷ cs) k e = elim (Option-cases (find_last cs)) [
  | inl n ↦ elim (Bool-cases (c == 46)) [
    | inr t ↦ let h : none ≡ some k = rw (find_last, n, t) at e in cc
    | inl t ↦
        let h : some 0 ≡ some k = rw (find_last, n, t) at e in
        let zero_place : 0 ≡ k = ground (arith, h) in
        let point : c ≡ 46 = ground (arith, t) in rw (sym zero_place, point) refl
  ]
  | inr (j, f) ↦
      let h : some (suc j) ≡ some k = rw (find_last, f) at e in
      let same : suc j ≡ k = ground (arith, h) in
      rw (sym same) (ap (λ r. c ∷ r) (last_parts cs j f))
]

-- Where there is a first point, there is a last one, not before it.
pub first_before_last :
    (s : String) (f : ℕ) → find_first s ≡ some f → (l : ℕ) × ((find_last s ≡ some l) × (f ≤ l))
unfolding find_first find_last
first_before_last [] f e = cc
first_before_last (c ∷ cs) f e = elim (Bool-cases (c == 46)) [
  | inl t ↦
      let h : some 0 ≡ some f = rw (find_first, t) at e in
      let z : 0 ≡ f = ground (arith, h) in
      elim (Option-cases (find_last cs)) [
        | inl n ↦ (0, (rw (find_last, n, t) refl, rw (sym z) (omega arith)))
        | inr (j, n) ↦ (suc j, (rw (find_last, n) refl, rw (sym z) (omega arith)))
      ]
  | inr t ↦ elim (Option-cases (find_first cs)) [
    | inl n ↦ let h : none ≡ some f = rw (find_first, t, n) at e in cc
    | inr (j, n) ↦
        let h : some (suc j) ≡ some f = rw (find_first, t, n) at e in
        let z : suc j ≡ f = ground (arith, h) in
        let r = first_before_last cs j n in
        (suc r.0, (rw (find_last, r.1.0) refl, omega (arith, z, r.1.1)))
  ]
]

find_last_tail :
    (c : ℕ) (cs : String) (m : ℕ) → find_last (c ∷ cs) ≡ some (suc m) → find_last cs ≡ some m
unfolding find_last
find_last_tail c cs m e = elim (Option-cases (find_last cs)) [
  | inr (j, n) ↦
      let h : some (suc j) ≡ some (suc m) = rw (find_last, n) at e in rw n (ground (arith, h))
  | inl n ↦ elim (Bool-cases (c == 46)) [
    | inl t ↦
        let h : some 0 ≡ some (suc m) = rw (find_last, n, t) at e in
        let bad : ⊥ = ground (arith, h) in elim bad [ ]
    | inr t ↦ let h : none ≡ some (suc m) = rw (find_last, n, t) at e in cc
  ]
]

-- A first point at the beginning, or later.
find_first_here : (c : ℕ) (cs : String) → find_first (c ∷ cs) ≡ some 0 → c ≡ 46
unfolding find_first
find_first_here c cs e = elim (Bool-cases (c == 46)) [
  | inl t ↦ ground (arith, t)
  | inr t ↦ let bad : ⊥ = ground (arith, t, e) in elim bad [ ]
]

find_first_tail :
    (c : ℕ) (cs : String) (f : ℕ) → find_first (c ∷ cs) ≡ some (suc f) → find_first cs ≡ some f
unfolding find_first
find_first_tail c cs f e = ground (arith, e)

-- The text between the first point and a later last one, and what stands around it.
pub parts_join :
    (s : String) (f k l : ℕ)
    → find_first s ≡ some f
    → find_last s ≡ some l
    → l ≡ suc (f + k)
    → take f s ++ 46 ∷ (take k (drop (suc f) s) ++ 46 ∷ drop (suc l) s) ≡ s
unfolding find_first find_last
parts_join [] f k l e g h = cc
parts_join (c ∷ cs) f k zero e g h = let bad : ⊥ = omega (arith, h) in elim bad [ ]
parts_join (c ∷ cs) zero k (suc m) e g h =
    let z : m ≡ k = omega (arith, h) in
    rw (sym z, find_first_here c cs e)
      (ap (λ q. 46 ∷ q) (last_parts cs m (find_last_tail c cs m g)))
parts_join (c ∷ cs) (suc f) k (suc m) e g h =
    ap (λ q. c ∷ q)
      (parts_join cs f k m (find_first_tail c cs f e) (find_last_tail c cs m g) (omega (arith, h)))

-- The same parts without the last one are what stands up to the last point.
last_taken : (s : String) (k : ℕ) → find_last s ≡ some k → take k s ++ 46 ∷ [] ≡ take (suc k) s
unfolding find_last
last_taken [] k e = cc
last_taken (c ∷ cs) k e = elim (Option-cases (find_last cs)) [
  | inl n ↦ elim (Bool-cases (c == 46)) [
    | inr t ↦ let h : none ≡ some k = rw (find_last, n, t) at e in cc
    | inl t ↦
        let h : some 0 ≡ some k = rw (find_last, n, t) at e in
        let zero_place : 0 ≡ k = ground (arith, h) in
        let point : c ≡ 46 = ground (arith, t) in rw (sym zero_place, point) refl
  ]
  | inr (j, f) ↦
      let h : some (suc j) ≡ some k = rw (find_last, f) at e in
      let same : suc j ≡ k = ground (arith, h) in
      rw (sym same) (ap (λ r. c ∷ r) (last_taken cs j f))
]

pub parts_taken :
    (s : String) (f k l : ℕ)
    → find_first s ≡ some f
    → find_last s ≡ some l
    → l ≡ suc (f + k)
    → take f s ++ 46 ∷ (take k (drop (suc f) s) ++ 46 ∷ []) ≡ take (suc l) s
unfolding find_first find_last
parts_taken [] f k l e g h = cc
parts_taken (c ∷ cs) f k zero e g h = let bad : ⊥ = omega (arith, h) in elim bad [ ]
parts_taken (c ∷ cs) zero k (suc m) e g h =
    let z : m ≡ k = omega (arith, h) in
    rw (sym z, find_first_here c cs e)
      (ap (λ q. 46 ∷ q) (last_taken cs m (find_last_tail c cs m g)))
parts_taken (c ∷ cs) (suc f) k (suc m) e g h =
    ap (λ q. c ∷ q)
      (parts_taken cs f k m (find_first_tail c cs f e) (find_last_tail c cs m g) (omega (arith, h)))
