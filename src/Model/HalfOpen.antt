-- ===== src/Model/HalfOpen.antt =====
-- polaris/model/model.cpp: the half-open instances of a Service, which SetCircuitBreakerData writes
-- and TryChooseHalfOpenInstance hands out. Instances are named by their ids, a type with decidable
-- equality; a request count is a pattern of `int`.
pub mod Pace
pub mod Quota
use polaris_cpp.Base.{
  ℕ, ◌+◌, ◌^◌, Bool, true, false, Option, none, some, List, [], ◌∷◌, Key, lookup, insert, take,
  drop, ltb, leb, if◌then◌else◌, add32, sub32, add64, lt_int, not, ◌||◌,
}

pub record ServiceImpl (K : Type 0) : Type 0 where
  pub circuit_breaker_data_version_ : ℕ
  pub half_open_instances_ : List (K × ℕ)
  pub last_half_open_time_ : ℕ
  pub try_half_open_count_ : ℕ
  pub have_half_open_data_ : Bool
  pub half_open_data_ : List (K × ℕ)

abbrev pub is_empty : {A : Type 0} → List A → Bool
is_empty [] = true
is_empty (x ∷ xs) = false

module _ {K : Type 0} ⦃key : Key K⦄ where
  abbrev pub new_service : ServiceImpl K
  new_service = record {
    circuit_breaker_data_version_ = 0;
    half_open_instances_ = [];
    last_half_open_time_ = 0;
    try_half_open_count_ = 0;
    have_half_open_data_ = false;
    half_open_data_ = [];
  }

  -- The loop that keeps what is left of the requests of an instance that is still half-open.
  unfoldable pub keep_left : List (K × ℕ) → List (K × ℕ) → List (K × ℕ)
  keep_left [] half_open_instances = half_open_instances
  keep_left ((k, n) ∷ data_) half_open_instances =
      keep_left data_ (elim (lookup k half_open_instances) [
        | none ↦ half_open_instances
        | some _ ↦ insert k n half_open_instances
      ])

  -- SetCircuitBreakerData, for the half-open instances.
  unfoldable pub set_circuit_breaker_data : ℕ → List (K × ℕ) → ServiceImpl K → ServiceImpl K
  set_circuit_breaker_data version half_open s =
      let newer : Bool = ltb s.circuit_breaker_data_version_ version in
      let instances : List (K × ℕ) = if newer then half_open else s.half_open_instances_ in
      let data_ : List (K × ℕ) = keep_left s.half_open_data_ instances in
      if leb version s.circuit_breaker_data_version_ then s else record s {
        circuit_breaker_data_version_ = if newer then version else s.circuit_breaker_data_version_;
        half_open_instances_ = instances;
        half_open_data_ = data_;
        have_half_open_data_ = not (is_empty data_);
        try_half_open_count_ = if is_empty data_ then 20 else s.try_half_open_count_;
      }

  -- A loop over instances: the first with requests left, and the data with one less.
  unfoldable pub choose_loop : List K → List (K × ℕ) → Option (K × List (K × ℕ))
  choose_loop [] data_ = none
  choose_loop (i ∷ is) data_ =
      let rest = choose_loop is data_ in
      elim (lookup i data_) [
        | none ↦ rest
        | some n ↦ if lt_int 0 n then some (i, insert i (sub32 n 1) data_) else rest
      ]

  -- Both loops, from the random place to the end and from the beginning to it.
  unfoldable pub choose_from : ℕ → List K → List (K × ℕ) → Option (K × List (K × ℕ))
  choose_from split instances data_ = elim (choose_loop (drop split instances) data_) [
    | some r ↦ some r
    | none ↦ choose_loop (take split instances) data_
  ]

  -- TryChooseHalfOpenInstance, at a time and with the place that the random value gives.
  unfoldable pub try_choose_half_open_instance :
      List K → ℕ → ℕ → ServiceImpl K → Option K × ServiceImpl K
  try_choose_half_open_instance instances current_time split s =
      let tried = record s { try_half_open_count_ = add32 s.try_half_open_count_ 1 } in
      let released = record tried {
        last_half_open_time_ = current_time;
        try_half_open_count_ = 0;
      } in
      if not s.have_half_open_data_ || is_empty instances
      then (none, s)
      else if lt_int tried.try_half_open_count_ 20
      then (none, tried)
      else if ltb current_time (add64 s.last_half_open_time_ 2000)
      then (none, tried)
      else elim (choose_from split instances s.half_open_data_) [
        | none ↦ (none, released)
        | some r ↦ (some r.0, record released { half_open_data_ = r.1 })
      ]
