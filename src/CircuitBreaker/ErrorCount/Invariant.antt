-- ===== src/CircuitBreaker/ErrorCount/Invariant.antt =====
-- The agreement of ErrorCountCircuitBreaker with the chain over whole tables and histories.
use polaris_cpp.Base.{
  ℕ, ◌≡◌, refl, ◌⊎◌, inl, inr, ◌≢◌, ite, Bool, Key, arith, Bool-cases, List, [], ◌∷◌, lookup,
  insert, erase, none, some, lookup-insert, lookup-erase, IsUnique, insert-IsUnique, erase-IsUnique,
  Option-cases, if◌then◌else◌,
}
use polaris_cpp.CircuitBreaker.Status.{
  CircuitBreakerStatus, close, half_open, opened, preserved, Clock, CallRetStatus,
}
use polaris_cpp.CircuitBreaker.Slots.{Slot, delete_keys}
use polaris_cpp.CircuitBreaker.ChainData.{Shared, InstancesStatus, entry, translate}
use polaris_cpp.CircuitBreaker.ChainData.Laws.{translate-Translated}
use polaris_cpp.CircuitBreaker.Agreement.{AgreeAt, clear_both-Moves}
use polaris_cpp.CircuitBreaker.ErrorCount.{
  ErrorCountStatus, Settings, new_status, get_or_create, real_time_circuit_break, on_call,
  timing_at, timing_circuit_break, detected, detect_to_half_open, clean_expired, clean_status,
}
use polaris_cpp.CircuitBreaker.ErrorCount.Agree.{Keeps, on_call-Keeps, timing_at-Keeps}

abbrev pub Table : Type 0 → Type 0
Table K = List (K × Slot ErrorCountStatus)

module _ {K : Type 0} ⦃key : Key K⦄ where
  abbrev pub Agree : ℕ → Table K × Shared K → Type 0
  Agree p x = (j : K) → AgreeAt p (get_or_create x.0 j).status (entry x.1.chain j)

  pub record Inv (p : ℕ) (x : Table K × Shared K) : Type 0 where
    pub unique : IsUnique x.0
    pub agree : Agree p x

  pub get_or_create-insert :
      (m : Table K) (id j : K) (v : Slot ErrorCountStatus)
      → get_or_create (insert id v m) j ≡ ite (key.dec id j) v.value (get_or_create m j)
  unfolding get_or_create
  get_or_create-insert m id j v = ground (arith, lookup-insert id j v m)

  get_or_create-erase :
      (m : Table K) (id j : K)
      → get_or_create (erase id m) j ≡ ite (key.dec id j) new_status (get_or_create m j)
  unfolding get_or_create
  get_or_create-erase m id j = ground (arith, lookup-erase id j m)

  get_or_create-absent : (m : Table K) (j : K) → lookup j m ≡ none → get_or_create m j ≡ new_status
  unfolding get_or_create
  get_or_create-absent m j h = ground arith

  module _ (s : Settings) (i : InstancesStatus) (now : Clock) (pos : i.plugin_index ≢ 0) where
    pub real_time-Inv :
        (id : K) (ret : CallRetStatus) (x : Table K × Shared K)
        → Inv i.plugin_index x
        → Inv i.plugin_index (real_time_circuit_break s i now id ret x)
    unfolding real_time_circuit_break
    real_time-Inv id ret (m, w) v =
        let moves = on_call-Keeps s i now id pos ret (get_or_create m id) w (v.agree id) in
        record {
          unique = insert-IsUnique id _ m v.unique;
          agree = λ j. ground (
            arith,
            get_or_create-insert m id j (record {
              used_time = now.steady;
              value = (on_call s i now id ret (get_or_create m id) w).0;
            }),
            moves.agree,
            moves.frame j,
            v.agree j,
          );
        }

    -- The loop leaves the instances that are not in the table alone.
    timing-absent :
        (m : Table K) (w : Shared K) (j : K)
        → lookup j m ≡ none
        → lookup j (timing_circuit_break s i now m w).0 ≡ none
    unfolding timing_circuit_break lookup
    timing-absent [] w j h = refl
    timing-absent ((id, slot) ∷ m) w j h =
        ground (arith, timing-absent m (timing_at slot.value.status s i now id slot.value w).1 j)

    timing-present :
        (m : Table K) (w : Shared K) (j : K)
        → lookup j (timing_circuit_break s i now m w).0 ≡ none
        → lookup j m ≡ none
    unfolding timing_circuit_break lookup
    timing-present [] w j h = refl
    timing-present ((id, slot) ∷ m) w j h =
        ground (arith, timing-present m (timing_at slot.value.status s i now id slot.value w).1 j)

    -- The agreement on the instances of the table, which is what the loop needs of the chain.
    abbrev pub Covers : Table K → Shared K → Type 0
    Covers m w =
        (j : K)
        → lookup j m ≢ none
        → AgreeAt i.plugin_index (get_or_create m j).status (entry w.chain j)

    pub head-Moves :
        (id : K) (slot : Slot ErrorCountStatus) (m : Table K) (w : Shared K)
        → Covers ((id, slot) ∷ m) w
        → Keeps s i now id pos w (timing_at slot.value.status s i now id slot.value w)
    unfolding lookup get_or_create
    head-Moves id slot m w a =
        timing_at-Keeps s i now id pos slot.value.status slot.value w refl (ground (arith, a id))

    pub rest-Covers :
        (id : K) (slot : Slot ErrorCountStatus) (m : Table K) (w : Shared K)
        → lookup id m ≡ none
        → Covers ((id, slot) ∷ m) w
        → Covers m (timing_at slot.value.status s i now id slot.value w).1
    unfolding lookup get_or_create
    rest-Covers id slot m w u a j h = ground (arith, a j, (head-Moves id slot m w a).frame j, u)

    pub timing-Agree :
        (m : Table K) (w : Shared K)
        → IsUnique m
        → Covers m w
        → let r = timing_circuit_break s i now m w in
          IsUnique r.0
          × Covers r.0 r.1
          × ((j : K) → lookup j m ≡ none → entry r.1.chain j ≡ entry w.chain j)
    unfolding timing_circuit_break lookup get_or_create
    timing-Agree [] w u a = (tt, (λ j h. absurd (h refl)), λ j h. refl)
    timing-Agree ((id, slot) ∷ m) w u a =
        let r = timing_at slot.value.status s i now id slot.value w in
        let moves = head-Moves id slot m w a in
        let rest = timing-Agree m r.1 u.1 (rest-Covers id slot m w u.0 a) in
        (
          (timing-absent m r.1 id u.0, rest.0),
          (λ j h. ground (arith, moves.agree, rest.1 j, rest.2 j, u.0)),
          (λ j h. ground (arith, moves.frame j, rest.2 j)),
        )

    pub timing-Inv :
        (x : Table K × Shared K)
        → Inv i.plugin_index x
        → Inv i.plugin_index (timing_circuit_break s i now x.0 x.1)
    timing-Inv (m, w) v =
        let (unique, agree, frame) = timing-Agree m w v.unique (λ j h. v.agree j) in
        record {
          unique = unique;
          agree = λ j. elim (Option-cases (lookup j (timing_circuit_break s i now m w).0)) [
            | inl absent ↦ rw (get_or_create-absent _ j absent) (
                ground (
                  arith,
                  v.agree j,
                  frame j,
                  get_or_create-absent m j,
                  timing-present m w j absent,
                ))
            | inr (slot, there) ↦ agree j (λ e. cc)
          ];
        }

  -- `detect_to_half_open` rewrites the slot of a known instance, and nothing else.
  detect_cases :
      (now : Clock) (id : K) (m : Table K)
      → ((lookup id m ≡ none) × (detect_to_half_open now id m ≡ m))
        ⊎ ((slot : Slot ErrorCountStatus) × (lookup id m ≡ some slot)
            × (detect_to_half_open now id m
                ≡ insert id (record { used_time = now.steady; value = detected now slot.value }) m))
  unfolding detect_to_half_open
  detect_cases now id m = elim (Option-cases (lookup id m)) [
    | inl e ↦ inl (e, rw (e, detect_to_half_open))
    | inr (slot, e) ↦ inr (slot, e, rw (e, detect_to_half_open))
  ]

  detect-IsUnique :
      (now : Clock) (id : K) (m : Table K) → IsUnique m → IsUnique (detect_to_half_open now id m)
  detect-IsUnique now id m u = elim (detect_cases now id m) [
    | inl (e, same) ↦ rw same u
    | inr (slot, e, new) ↦ rw new (insert-IsUnique id _ m u)
  ]

  get_or_create-detect :
      (now : Clock) (id j : K) (m : Table K)
      → (get_or_create m id).status ≡ opened
      → (get_or_create (detect_to_half_open now id m) j).status
        ≡ ite (key.dec id j) half_open (get_or_create m j).status
  unfolding get_or_create detected
  get_or_create-detect now id j m was_open = elim (detect_cases now id m) [
    | inl (e, same) ↦ absurd (ground (arith, e))
    | inr (slot, e, new) ↦
        rw (new, get_or_create)
          (ground (
            arith,
            lookup-insert id j (record { used_time = now.steady; value = detected now slot.value })
                m,
            e,
          ))
  ]

  -- The chain's part of DetectToHalfOpen: it is called once the owner's translation succeeded.
  pub detect-Inv :
      (i : InstancesStatus) (now : Clock) (id : K) (x : Table K × Shared K)
      → i.plugin_index ≢ 0
      → Inv i.plugin_index x
      → let r = translate i now id opened half_open x.1 in
        Inv i.plugin_index (if r.0 then detect_to_half_open now id x.0 else x.0, r.1)
  detect-Inv i now id (m, w) pos v = elim (translate-Translated i now id opened half_open w) [
    | inl (a, e, same) ↦ rw e (record {
      unique = ground (arith, v.unique, detect-IsUnique now id m v.unique);
      agree = λ j.
          rw (same j) (ground (arith, a, v.agree id, v.agree j, get_or_create-detect now id j m));
    })
    | inr (a, e, same) ↦ rw e (record { unique = v.unique; agree = λ j. rw (same j) (v.agree j) })
  ]

  -- Whatever another plugin asks of the chain.
  pub foreign-Inv :
      (p : ℕ) (i : InstancesStatus) (now : Clock) (id : K) (from to : CircuitBreakerStatus)
      (x : Table K × Shared K)
      → p ≢ 0
      → i.plugin_index ≢ 0
      → i.plugin_index ≢ p
      → to ≢ preserved
      → Inv p x
      → Inv p (x.0, (translate i now id from to x.1).1)
  foreign-Inv p i now id from to (m, w) pos qpos other live v = record {
    unique = v.unique;
    agree = λ j. elim (translate-Translated i now id from to w) [
      | inl (a, e, same) ↦ rw (same j) (ground (arith, a, v.agree id, v.agree j))
      | inr (a, e, same) ↦ rw (same j) (v.agree j)
    ];
  }

  -- The two translations of CleanStatus put an expired instance back to closed if the breaker had it
  -- out of service, so its status may go.
  clean_one-Inv :
      (i : InstancesStatus) (now : Clock) (id : K) (m : Table K) (w : Shared K)
      → i.plugin_index ≢ 0
      → Inv i.plugin_index (m, w)
      → Inv i.plugin_index
          (erase id m, (translate i now id half_open close (translate i now id opened close w).1).1)
  clean_one-Inv i now id m w pos v =
      let moves = clear_both-Moves i now id (get_or_create m id).status w pos (v.agree id) in
      record {
        unique = erase-IsUnique id m v.unique;
        agree =
            λ j. ground (arith, get_or_create-erase m id j, moves.agree, moves.frame j, v.agree j);
      }

  clean_expired-Inv :
      (exists : K → Bool) (i : InstancesStatus) (now : Clock) (ids : List K) (m : Table K)
      (w : Shared K)
      → i.plugin_index ≢ 0
      → Inv i.plugin_index (m, w)
      → let r = clean_expired exists i now ids w in Inv i.plugin_index (delete_keys r.0 m, r.1)
  unfolding clean_expired delete_keys
  clean_expired-Inv exists i now [] m w pos v = v
  clean_expired-Inv exists i now (id ∷ ids) m w pos v = elim (Bool-cases (exists id)) [
    | inl kept ↦ rw kept (clean_expired-Inv exists i now ids m w pos v)
    | inr gone ↦
        rw gone
          (clean_expired-Inv exists i now ids (erase id m) _ pos (clean_one-Inv i now id m w pos v))
  ]

  pub clean-Inv :
      (s : Settings) (exists : K → Bool) (i : InstancesStatus) (now : Clock)
      (x : Table K × Shared K)
      → i.plugin_index ≢ 0
      → Inv i.plugin_index x
      → Inv i.plugin_index (clean_status s exists i now x.0 x.1)
  unfolding clean_status
  clean-Inv s exists i now (m, w) pos v = clean_expired-Inv exists i now _ m w pos v
