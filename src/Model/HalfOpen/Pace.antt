-- ===== src/Model/HalfOpen/Pace.antt =====
-- How often TryChooseHalfOpenInstance releases an instance.
use polaris_cpp.Base.{
  ℕ, suc, ◌+◌, ◌^◌, ◌≤◌, ◌<◌, Bool, true, false, Option, none, some, List, [], ◌∷◌, Key, ltb,
  if◌then◌else◌, ◌≡◌, ◌≢◌, refl, arith, inl, inr, Bool-cases, Option-cases, lt_int, add32, add64,
  not, ◌||◌,
}
use polaris_cpp.Model.HalfOpen.{
  ServiceImpl, is_empty, new_service, set_circuit_breaker_data, choose_from,
  try_choose_half_open_instance,
}

-- What happens to a service; a history has the last event first.
pub data Event (K : Type 0) : Type 0 where
  write : ℕ → List (K × ℕ) → Event K
  try_at : List K → ℕ → ℕ → Event K

add_one_le : (n : ℕ) → add32 n 1 ≤ suc n
add_one_le n = omega arith

module _ {K : Type 0} ⦃key : Key K⦄ where
  abbrev pub step : Event K → ServiceImpl K → Option K × ServiceImpl K
  step (write version half_open) s = (none, set_circuit_breaker_data version half_open s)
  step (try_at instances now split) s = try_choose_half_open_instance instances now split s

  abbrev pub run : List (Event K) → ServiceImpl K
  run [] = new_service
  run (e ∷ es) = (step e (run es)).1

  abbrev pub is_some : Option K → Bool
  is_some none = false
  is_some (some k) = true

  some_is : {o : Option K} → o ≢ none → is_some o ≡ true
  some_is {o = none} n = elim (n refl) [ ]
  some_is {o = some k} n = refl

  -- The time of the last release, and the calls after it up to which no data was written.
  abbrev pub last_release : List (Event K) → Option ℕ
  last_release [] = none
  last_release (write version half_open ∷ es) = last_release es
  last_release (try_at instances now split ∷ es) =
      if is_some (step (try_at instances now split) (run es)).0 then some now else last_release es

  abbrev pub calls_since : List (Event K) → Option ℕ
  calls_since [] = none
  calls_since (write version half_open ∷ es) = none
  calls_since (try_at instances now split ∷ es) =
      if is_some (step (try_at instances now split) (run es)).0
      then some 0
      else elim (calls_since es) [ none ↦ none | some n ↦ some (suc n) ]

  -- All times are below 2 ^ 63.
  abbrev pub Early : List (Event K) → Type 0
  Early [] = Unit {0}
  Early (write version half_open ∷ es) = Early es
  Early (try_at instances now split ∷ es) = (now < 2 ^ 63) × Early es

  -- What one call does to the time and the count.
  pub record Paced (s : ServiceImpl K) (now : ℕ) (r : Option K × ServiceImpl K) : Type 0 where
    pub kept : s.last_half_open_time_ ≤ r.1.last_half_open_time_
    pub early : r.1.last_half_open_time_ < 2 ^ 63
    pub counted : r.1.try_half_open_count_ ≤ suc s.try_half_open_count_
    pub apart : is_some r.0 ≡ true → s.last_half_open_time_ + 2000 ≤ now
    pub stamped : is_some r.0 ≡ true → r.1.last_half_open_time_ ≡ now
    pub reset : is_some r.0 ≡ true → r.1.try_half_open_count_ ≡ 0
    pub enough : is_some r.0 ≡ true → lt_int (add32 s.try_half_open_count_ 1) 20 ≡ false

  idle :
      (s : ServiceImpl K) (now n : ℕ)
      → s.last_half_open_time_ < 2 ^ 63
      → n ≤ suc s.try_half_open_count_
      → Paced s now (none, record s { try_half_open_count_ = n })
  idle s now n early le = record {
    kept = omega arith;
    early = early;
    counted = le;
    apart = λ e. cc;
    stamped = λ e. cc;
    reset = λ e. cc;
    enough = λ e. cc;
  }

  paced :
      (s : ServiceImpl K) (instances : List K) (now split : ℕ)
      → s.last_half_open_time_ < 2 ^ 63
      → now < 2 ^ 63
      → Paced s now (try_choose_half_open_instance instances now split s)
  unfolding try_choose_half_open_instance
  paced s instances now split early lt =
      let n : ℕ = add32 s.try_half_open_count_ 1 in
      elim (Bool-cases (not s.have_half_open_data_ || is_empty instances)) [
        | inl a ↦ rw a (idle s now s.try_half_open_count_ early (omega arith))
        | inr a ↦ elim (Bool-cases (lt_int n 20)) [
          | inl b ↦ rw (a, b) (idle s now n early (add_one_le s.try_half_open_count_))
          | inr b ↦ elim (Bool-cases (ltb now (add64 s.last_half_open_time_ 2000))) [
            | inl c ↦ rw (a, b, c) (idle s now n early (add_one_le s.try_half_open_count_))
            | inr c ↦
                let gap : s.last_half_open_time_ + 2000 ≤ now = ground (arith, c, early) in
                elim (Option-cases (choose_from split instances s.half_open_data_)) [
                  | inl d ↦
                      rw (a, b, c, d)
                        (record {
                          kept = omega (arith, gap);
                          early = lt;
                          counted = omega arith;
                          apart = λ e. gap;
                          stamped = λ e. refl;
                          reset = λ e. refl;
                          enough = λ e. b;
                        })
                  | inr (r, d) ↦
                      rw (a, b, c, d)
                        (record {
                          kept = omega (arith, gap);
                          early = lt;
                          counted = omega arith;
                          apart = λ e. gap;
                          stamped = λ e. refl;
                          reset = λ e. refl;
                          enough = λ e. b;
                        })
                ]
          ]
        ]
      ]

  write_keeps :
      (version : ℕ) (half_open : List (K × ℕ)) (s : ServiceImpl K)
      → (set_circuit_breaker_data version half_open s).last_half_open_time_ ≡ s.last_half_open_time_
  unfolding set_circuit_breaker_data
  write_keeps version half_open s = ground arith

  run-Early : (es : List (Event K)) → Early es → (run es).last_half_open_time_ < 2 ^ 63
  run-Early [] h = omega arith
  run-Early (write version half_open ∷ es) h =
      omega (arith, write_keeps version half_open (run es), run-Early es h)
  run-Early (try_at instances now split ∷ es) (lt, h) =
      (paced (run es) instances now split (run-Early es h) lt).early

  -- The stored time is not before the last release.
  stored_after :
      (es : List (Event K)) (t : ℕ)
      → Early es
      → last_release es ≡ some t
      → t ≤ (run es).last_half_open_time_
  stored_after [] t h e = ground (arith, e)
  stored_after (write version half_open ∷ es) t h e =
      omega (arith, write_keeps version half_open (run es), stored_after es t h e)
  stored_after (try_at instances now split ∷ es) t (lt, h) e =
      let p = paced (run es) instances now split (run-Early es h) lt in
      elim (Bool-cases (is_some (try_choose_half_open_instance instances now split (run es)).0)) [
        | inl some_ ↦ ground (arith, p.stamped some_, rw some_ at e)
        | inr none_ ↦ omega (arith, p.kept, stored_after es t h (rw none_ at e))
      ]

  count_since :
      (es : List (Event K)) (n : ℕ)
      → Early es
      → calls_since es ≡ some n
      → (run es).try_half_open_count_ ≤ n
  count_since [] n h e = ground (arith, e)
  count_since (write version half_open ∷ es) n h e = ground (arith, e)
  count_since (try_at instances now split ∷ es) n (lt, h) e =
      let p = paced (run es) instances now split (run-Early es h) lt in
      elim (Bool-cases (is_some (try_choose_half_open_instance instances now split (run es)).0)) [
        | inl some_ ↦ omega (arith, p.reset some_)
        | inr none_ ↦ elim (Option-cases (calls_since es)) [
          | inl unknown ↦ ground (arith, unknown, rw none_ at e)
          | inr (m, known) ↦
              ground (arith, known, rw none_ at e, p.counted, count_since es m h known)
        ]
      ]

  -- After any history of writes and calls, at times below 2 ^ 63, a call releases an instance only
  -- 2000 ms or more after the last release.
  pub releases_apart :
      (es : List (Event K)) (instances : List K) (now split t : ℕ)
      → Early es
      → now < 2 ^ 63
      → last_release es ≡ some t
      → (try_choose_half_open_instance instances now split (run es)).0 ≢ none
      → t + 2000 ≤ now
  releases_apart es instances now split t h lt last n =
      let p = paced (run es) instances now split (run-Early es h) lt in
      let apart = p.apart (some_is n) in omega (arith, apart, stored_after es t h last)

  -- And as long as nothing was written since, it is at least the 20th call after that release.
  pub releases_counted :
      (es : List (Event K)) (instances : List K) (now split n : ℕ)
      → Early es
      → now < 2 ^ 63
      → calls_since es ≡ some n
      → (try_choose_half_open_instance instances now split (run es)).0 ≢ none
      → 19 ≤ n
  releases_counted es instances now split n h lt since some_ =
      let p = paced (run es) instances now split (run-Early es h) lt in
      ground (arith, p.enough (some_is some_), count_since es n h since)
