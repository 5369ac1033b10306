-- ===== src/Model/Tests.antt =====
-- Two half-open instances at concrete times.
use polaris_cpp.Base.{
  ℕ, zero, suc, ◌+◌, ◌≤◌, ◌≡◌, refl, List, [], ◌∷◌, ◌++◌, replicate, arith, nat_key, lookup, insert,
  ℕ_discrete, true,
}
use polaris_cpp.Model.HalfOpen.{
  ServiceImpl, set_circuit_breaker_data, keep_left, choose_loop, choose_from,
  try_choose_half_open_instance,
}
use polaris_cpp.Model.HalfOpen.Pace.{Early, Event, write, try_at, releases_apart}
use polaris_cpp.Model.HalfOpen.Quota.{left, given_by, calls, Call, given-left, AllWords}

abbrev serving : ServiceImpl ℕ
serving = record {
  circuit_breaker_data_version_ = 1;
  half_open_instances_ = (7, 2) ∷ (8, 1) ∷ [];
  last_half_open_time_ = 0;
  try_half_open_count_ = 19;
  have_half_open_data_ = true;
  half_open_data_ = (7, 2) ∷ (8, 1) ∷ [];
}

abbrev some_calls : List (Call ℕ)
some_calls = (7 ∷ 8 ∷ [], (5000, 1)) ∷ (7 ∷ 8 ∷ [], (5001, 0)) ∷ []

serving-AllWords : AllWords serving.half_open_data_
unfolding lookup
serving-AllWords k = ground arith

given-left_example :
    given_by 8 some_calls serving + left 8 (calls some_calls serving).half_open_data_ ≡ 1
unfolding lookup ℕ_discrete
given-left_example = given-left 8 some_calls serving serving-AllWords

-- An empty write lets the next call release at once, which leaves the pace in time.
abbrev history : List (Event ℕ)
history =
    replicate 19 (try_at (7 ∷ []) 6000 0)
    ++ try_at (7 ∷ []) 5000 0 ∷ write 2 ((7, 3) ∷ []) ∷ write 1 [] ∷ []

replicate-Early :
    (n : ℕ) (es : List (Event ℕ)) → Early es → Early (replicate n (try_at (7 ∷ []) 6000 0) ++ es)
replicate-Early zero es h = h
replicate-Early (suc n) es h = (omega arith, replicate-Early n es h)

history-Early : Early history
history-Early =
    replicate-Early 19 (try_at (7 ∷ []) 5000 0 ∷ write 2 ((7, 3) ∷ []) ∷ write 1 [] ∷ [])
      (omega arith, tt)

releases_apart_example : 5000 + 2000 ≤ 7500
unfolding try_choose_half_open_instance set_circuit_breaker_data keep_left choose_from choose_loop
    lookup insert ℕ_discrete
releases_apart_example =
    releases_apart history (7 ∷ []) 7500 0 5000 history-Early (omega arith) refl (λ e. cc)
