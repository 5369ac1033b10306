-- ===== src/Model/HalfOpen/Quota.antt =====
-- How many requests TryChooseHalfOpenInstance gives to each half-open instance.
use polaris_cpp.Base.{
  ℕ, ◌+◌, ◌^◌, ◌<◌, true, Option, none, some, List, [], ◌∷◌, Key, lookup, insert, lookup-insert,
  take, drop, ltb, if◌then◌else◌, ◌≡◌, refl, sym, ◌∙◌, arith, inl, inr, Bool-cases, Option-cases,
  lt_int, add32, add64, sub32, not, ◌||◌, ite,
}
use polaris_cpp.Model.HalfOpen.{
  ServiceImpl, is_empty, choose_loop, choose_from, try_choose_half_open_instance,
}

-- The instances, the time and the random place of a call.
abbrev pub Call : Type 0 → Type 0
Call K = List K × (ℕ × ℕ)

module _ {K : Type 0} ⦃key : Key K⦄ where
  -- The requests that are left for an instance.
  abbrev pub left : K → List (K × ℕ) → ℕ
  left j data_ = elim (lookup j data_) [ none ↦ 0 | some n ↦ n ]

  -- All request counts are patterns of 32 bits.
  abbrev pub AllWords : List (K × ℕ) → Type 0
  AllWords data_ = (k : K) → left k data_ < 2 ^ 32

  -- The requests that one answer gives to an instance.
  abbrev pub given : K → Option K → ℕ
  given j none = 0
  given j (some k) = ite (key.dec k j) 1 0

  -- The loop at an instance that has a number of requests left.
  choose_loop_at :
      (i : K) (is : List K) (data_ : List (K × ℕ)) (n : ℕ)
      → lookup i data_ ≡ some n
      → choose_loop (i ∷ is) data_
        ≡ (if lt_int 0 n then some (i, insert i (sub32 n 1) data_) else choose_loop is data_)
  unfolding choose_loop
  choose_loop_at i is data_ n e = rw (choose_loop, e) refl

  choose_loop_past :
      (i : K) (is : List K) (data_ : List (K × ℕ))
      → lookup i data_ ≡ none
      → choose_loop (i ∷ is) data_ ≡ choose_loop is data_
  unfolding choose_loop
  choose_loop_past i is data_ e = rw (choose_loop, e) refl

  taken :
      (j i : K) (n : ℕ) (data_ : List (K × ℕ))
      → lookup i data_ ≡ some n
      → lt_int 0 n ≡ true
      → n < 2 ^ 32
      → left j (insert i (sub32 n 1) data_) + given j (some i) ≡ left j data_
  taken j i n data_ e pos word = ground (arith, e, pos, word, lookup-insert i j (sub32 n 1) data_)

  choose_loop-left :
      (j : K) (is : List K) (data_ : List (K × ℕ)) (r : K × List (K × ℕ))
      → AllWords data_
      → choose_loop is data_ ≡ some r
      → left j r.1 + given j (some r.0) ≡ left j data_
  unfolding choose_loop
  choose_loop-left j [] data_ r small e = ground (arith, e)
  choose_loop-left j (i ∷ is) data_ r small e = elim (Option-cases (lookup i data_)) [
    | inl f ↦ choose_loop-left j is data_ r small (sym (choose_loop_past i is data_ f) ∙ e)
    | inr (n, f) ↦
        let e' = sym (choose_loop_at i is data_ n f) ∙ e in
        elim (Bool-cases (lt_int 0 n)) [
          | inr g ↦ choose_loop-left j is data_ r small (rw g at e')
          | inl g ↦ ground (arith, rw g at e', taken j i n data_ f g (ground (arith, f, small i)))
        ]
  ]

  choose_from-left :
      (j : K) (split : ℕ) (is : List K) (data_ : List (K × ℕ)) (r : K × List (K × ℕ))
      → AllWords data_
      → choose_from split is data_ ≡ some r
      → left j r.1 + given j (some r.0) ≡ left j data_
  unfolding choose_from
  choose_from-left j split is data_ r small e =
      elim (Option-cases (choose_loop (drop split is) data_)) [
        | inl f ↦ choose_loop-left j (take split is) data_ r small (rw (choose_from, f) at e)
        | inr (q, f) ↦
            choose_loop-left j (drop split is) data_ r small (f ∙ (rw (choose_from, f) at e))
      ]

  try-left :
      (j : K) (instances : List K) (now split : ℕ) (s : ServiceImpl K)
      → AllWords s.half_open_data_
      → (let r = try_choose_half_open_instance instances now split s in
          left j r.1.half_open_data_ + given j r.0 ≡ left j s.half_open_data_)
  unfolding try_choose_half_open_instance
  try-left j instances now split s small =
      elim (Bool-cases (not s.have_half_open_data_ || is_empty instances)) [
        | inl a ↦ rw a (omega arith)
        | inr a ↦ elim (Bool-cases (lt_int (add32 s.try_half_open_count_ 1) 20)) [
          | inl b ↦ rw (a, b) (omega arith)
          | inr b ↦ elim (Bool-cases (ltb now (add64 s.last_half_open_time_ 2000))) [
            | inl c ↦ rw (a, b, c) (omega arith)
            | inr c ↦ elim (Option-cases (choose_from split instances s.half_open_data_)) [
              | inl d ↦ rw (a, b, c, d) (omega arith)
              | inr (r, d) ↦
                  rw (a, b, c, d) (choose_from-left j split instances s.half_open_data_ r small d)
            ]
          ]
        ]
      ]

  -- Calls one after the other, the first of the list first.
  abbrev pub calls : List (Call K) → ServiceImpl K → ServiceImpl K
  calls [] s = s
  calls (c ∷ cs) s = calls cs (try_choose_half_open_instance c.0 c.1.0 c.1.1 s).1

  -- The requests that the calls give to an instance.
  abbrev pub given_by : K → List (Call K) → ServiceImpl K → ℕ
  given_by j [] s = 0
  given_by j (c ∷ cs) s =
      given j (try_choose_half_open_instance c.0 c.1.0 c.1.1 s).0
      + given_by j cs (try_choose_half_open_instance c.0 c.1.0 c.1.1 s).1

  -- Whatever calls are made between two writes, the requests given to an instance and those left
  -- for it add up to what it had: no instance gets more requests than the circuit breaker allows.
  pub given-left :
      (j : K) (cs : List (Call K)) (s : ServiceImpl K)
      → AllWords s.half_open_data_
      → given_by j cs s + left j (calls cs s).half_open_data_ ≡ left j s.half_open_data_
  given-left j [] s small = omega arith
  given-left j (c ∷ cs) s small =
      let t = try_choose_half_open_instance c.0 c.1.0 c.1.1 s in
      omega (
        arith,
        try-left j c.0 c.1.0 c.1.1 s small,
        given-left j cs t.1 (λ k. omega (arith, small k, try-left k c.0 c.1.0 c.1.1 s small)),
      )
