-- ===== src/LoadBalancer/Counting.antt =====
-- Counting the random values that a selector maps to an instance.
use polaris_cpp.Base.{ℕ, zero, suc, ◌+◌, ◌≤◌, ◌<◌, Bool, if◌then◌else◌, ◌≡◌, refl, ap, arith}

-- How many of the `n` numbers from `from` on pass a test.
abbrev pub count_from : (ℕ → Bool) → ℕ → ℕ → ℕ
count_from p from zero = 0
count_from p from (suc n) = (if p from then 1 else 0) + count_from p (suc from) n

pub count_split :
    (p : ℕ → Bool) (from m n : ℕ)
    → count_from p from (m + n) ≡ count_from p from m + count_from p (from + m) n
count_split p from zero n =
    let z : 0 + n ≡ n = omega arith in
    let f : from ≡ from + 0 = omega arith in
    let e : count_from p from (0 + n) ≡ count_from p from n = ap (λ k. count_from p from k) z in
    let g : count_from p from n ≡ count_from p (from + 0) n = ap (λ f. count_from p f n) f in
    omega (arith, e, g)
count_split p from (suc m) n =
    let ih = count_split p (suc from) m n in
    let z : suc m + n ≡ suc (m + n) = omega arith in
    let f : suc from + m ≡ from + suc m = omega arith in
    let g : count_from p from (suc m + n) ≡ count_from p from (suc (m + n)) =
      ap (λ k. count_from p from k) z in
    let e : count_from p (suc from + m) n ≡ count_from p (from + suc m) n =
      ap (λ f. count_from p f n) f in
    omega (arith, ih, e, g)

pub count_same :
    (p q : ℕ → Bool) (from n : ℕ)
    → ((r : ℕ) → from ≤ r → r < from + n → p r ≡ q r)
    → count_from p from n ≡ count_from q from n
count_same p q from zero h = refl
count_same p q from (suc n) h =
    let e = h from (omega arith) (omega arith) in
    rw e (
      ap (λ k. (if q from then 1 else 0) + k)
        (count_same p q (suc from) n (λ r lo hi. h r (omega (arith, lo)) (omega (arith, hi)))))

-- Values that all pass the test or all fail.
pub count_constant :
    (p : ℕ → Bool) (b : Bool) (from n : ℕ)
    → ((r : ℕ) → from ≤ r → r < from + n → p r ≡ b)
    → count_from p from n ≡ (if b then n else 0)
count_constant p b from zero h = ground arith
count_constant p b from (suc n) h =
    let e = h from (omega arith) (omega arith) in
    let ih =
      count_constant p b (suc from) n (λ r lo hi. h r (omega (arith, lo)) (omega (arith, hi))) in
    rw e (ground (arith, ih))

-- A test on shifted values.
pub count_shift :
    (p q : ℕ → Bool) (a from n : ℕ)
    → ((r : ℕ) → from ≤ r → r < from + n → p (a + r) ≡ q r)
    → count_from p (a + from) n ≡ count_from q from n
count_shift p q a from zero h = refl
count_shift p q a from (suc n) h =
    let e = h from (omega arith) (omega arith) in
    let ih =
      count_shift p q a (suc from) n (λ r lo hi. h r (omega (arith, lo)) (omega (arith, hi))) in
    let s : suc (a + from) ≡ a + suc from = omega arith in rw (e, s, ih) refl

-- Three ranges, one behind the other.
pub count_three :
    (p : ℕ → Bool) (l w r : ℕ)
    → count_from p 0 (w + l + r) ≡ count_from p 0 l + count_from p l w + count_from p (l + w) r
count_three p l w r =
    let n : w + l + r ≡ l + w + r = omega arith in
    let a : 0 + l ≡ l = omega arith in
    let b : 0 + (l + w) ≡ l + w = omega arith in
    let e : count_from p 0 (w + l + r) ≡ count_from p 0 (l + w + r) =
      ap (λ k. count_from p 0 k) n in
    let f : count_from p (0 + l) w ≡ count_from p l w = ap (λ k. count_from p k w) a in
    let g : count_from p (0 + (l + w)) r ≡ count_from p (l + w) r = ap (λ k. count_from p k r) b in
    omega (arith, e, f, g, count_split p 0 (l + w) r, count_split p 0 l w)
