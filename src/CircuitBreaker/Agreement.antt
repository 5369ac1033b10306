-- ===== src/CircuitBreaker/Agreement.antt =====
-- What a breaker's own status of an instance and the chain's entry for it must have in common, and
-- how one translation keeps it. Both breakers use this file.
use polaris_cpp.Base.{
  ℕ, ◌≡◌, refl, ◌⊎◌, inl, inr, ◌≢◌, ite, if_pos, if_neg, true, false, Key, arith, ◌∙◌,
}
use polaris_cpp.CircuitBreaker.Status.{
  CircuitBreakerStatus, close, half_open, opened, preserved, CircuitBreakerStatus-discrete, Clock,
}
use polaris_cpp.CircuitBreaker.ChainData.{
  ChainStatus, Shared, InstancesStatus, entry, translate, follow,
}
use polaris_cpp.CircuitBreaker.ChainData.Laws.{moved, translate-Translated}

-- Breaker `p` has an instance out of service exactly as the chain has it, when it is the owner, and
-- has it closed when it is not. A closed instance has no owner, and no instance is `preserved`.
pub record AgreeAt (p : ℕ) (st : CircuitBreakerStatus) (s : ChainStatus) : Type 0 where
  pub mine : s.owner_plugin_index ≡ p → st ≡ s.status
  pub not_mine : s.owner_plugin_index ≢ p → st ≡ close
  pub owned : s.owner_plugin_index ≢ 0 → s.status ≢ close
  pub free : s.owner_plugin_index ≡ 0 → s.status ≡ close
  pub live : s.status ≢ preserved

moved-AgreeAt :
    (p : ℕ) (to : CircuitBreakerStatus) (s : ChainStatus)
    → p ≢ 0
    → to ≢ preserved
    → AgreeAt p to (moved p to s)
moved-AgreeAt p to s pos live = ground arith

module _ {K : Type 0} ⦃key : Key K⦄ where
  -- A step about `id` that leaves breaker `p` with status `st`: the two agree on `id`, and the chain
  -- keeps its entries for all others.
  pub record Moves (p : ℕ) (id : K) (st : CircuitBreakerStatus) (w w' : Shared K) : Type 0 where
    pub agree : AgreeAt p st (entry w'.chain id)
    pub frame : (j : K) → id ≢ j → entry w'.chain j ≡ entry w.chain j

  pub stays :
      (p : ℕ) (id : K) (st : CircuitBreakerStatus) (w : Shared K)
      → AgreeAt p st (entry w.chain id)
      → Moves p id st w w
  stays p id st w a = record { agree = a; frame = λ j n. refl }

  -- A breaker that asks for a change from its own status gets it, and both sides have the new
  -- status, or is refused, and both keep the old one.
  pub translate-Moves :
      (i : InstancesStatus) (now : Clock) (id : K) (from to : CircuitBreakerStatus) (w : Shared K)
      → i.plugin_index ≢ 0
      → to ≢ preserved
      → AgreeAt i.plugin_index from (entry w.chain id)
      → let r = translate i now id from to w in
        ((r.0 ≡ true) × Moves i.plugin_index id to w r.1)
        ⊎ ((r.0 ≡ false) × Moves i.plugin_index id from w r.1)
  translate-Moves i now id from to w pos live a = elim (translate-Translated i now id from to w) [
    | inl (ok, done, e) ↦ inl (
      done,
      record {
        agree =
            rw (e id, if_pos _ refl) (moved-AgreeAt i.plugin_index to (entry w.chain id) pos live);
        frame = λ j n. rw (e j, if_neg _ n);
      },
    )
    | inr (refused, no_change, e) ↦
        inr (no_change, record { agree = rw (e id) a; frame = λ j n. e j })
  ]

  -- So a breaker that follows the answer keeps the agreement.
  pub follow-Moves :
      {S : Type 0} (status : S → CircuitBreakerStatus) (i : InstancesStatus) (now : Clock) (id : K)
      (from to : CircuitBreakerStatus) (w : Shared K) (new old : S)
      → i.plugin_index ≢ 0
      → to ≢ preserved
      → AgreeAt i.plugin_index from (entry w.chain id)
      → status new ≡ to
      → status old ≡ from
      → let r = follow (translate i now id from to w) new old in
        Moves i.plugin_index id (status r.0) w r.1
  unfolding follow
  follow-Moves status i now id from to w new old pos live a en eo =
      elim (translate-Moves i now id from to w pos live a) [
        | inl (agreed, m) ↦ rw (agreed, en) m
        | inr (refused, m) ↦ rw (refused, eo) m
      ]

  -- A translation to closed from a state out of service is granted exactly if the breaker has the
  -- instance in that state.
  pub clear-Moves :
      (i : InstancesStatus) (now : Clock) (id : K) (from st : CircuitBreakerStatus) (w : Shared K)
      → i.plugin_index ≢ 0
      → from ≢ close
      → AgreeAt i.plugin_index st (entry w.chain id)
      → Moves i.plugin_index id
          (ite (CircuitBreakerStatus-discrete st from) close st)
          w
          (translate i now id from close w).1
  clear-Moves i now id from st w pos out a = elim (translate-Translated i now id from close w) [
    | inl (allowed, done, e) ↦ record {
      agree = (let granted = e id in ground (arith, allowed, a, granted));
      frame = λ j n. rw (e j, if_neg _ n);
    }
    | inr (refused, no_change, e) ↦ record {
      agree = rw (e id) (ground (arith, refused, a));
      frame = λ j n. e j;
    }
  ]

  -- CleanStatus makes both; whatever the breaker had, the instance is closed for it afterwards.
  pub clear_both-Moves :
      (i : InstancesStatus) (now : Clock) (id : K) (st : CircuitBreakerStatus) (w : Shared K)
      → i.plugin_index ≢ 0
      → AgreeAt i.plugin_index st (entry w.chain id)
      → Moves i.plugin_index id close w
          (translate i now id half_open close (translate i now id opened close w).1).1
  clear_both-Moves i now id st w pos a =
      let first = clear-Moves i now id opened st w pos (λ x. cc) a in
      let second = clear-Moves i now id half_open _ _ pos (λ x. cc) first.agree in
      record {
        agree = ground (arith, a, second.agree);
        frame = λ j n. second.frame j n ∙ first.frame j n;
      }

  -- A breaker that has an instance out of service is its owner, so its request is granted.
  pub owner_granted :
      (i : InstancesStatus) (now : Clock) (id : K) (from to : CircuitBreakerStatus) (w : Shared K)
      → from ≢ close
      → from ≢ to
      → AgreeAt i.plugin_index from (entry w.chain id)
      → ((translate i now id from to w).0 ≡ true)
        × (entry (translate i now id from to w).1.chain id
            ≡ moved i.plugin_index to (entry w.chain id))
  owner_granted i now id from to w out other a = elim (translate-Translated i now id from to w) [
    | inl (allowed, done, e) ↦ (done, rw (e id, if_pos _ refl))
    | inr (refused, no_change, e) ↦ absurd (ground (arith, refused, a))
  ]
