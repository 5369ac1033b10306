-- ===== src/Quota/QpsBucket/Allocation.antt =====
-- RemoteAwareQpsBucket::Allocate: all buckets or none, and never more than the quota of a period.
use polaris_cpp.Base.{
  ℕ, ◌+◌, ◌-◌, ◌/◌, ◌^◌, ◌≤◌, ◌<◌, ◌≡◌, refl, ◌⊎◌, inl, inr, true, false, not, none, some, [], ◌∷◌,
  ◌++◌, arith, add64, sub64, ltb, lt_int64, lt_int64-sub64, add64_exact, sub64_exact,
}
use polaris_cpp.Quota.TokenBucket.{TokenBucket, roll, get_token, return_token}
use polaris_cpp.Quota.QpsBucket.{
  QpsBucket, Buckets, Grab, grab, return_all, allocate, failover_local, use_remote_quota,
  quota_result_ok, quota_result_limited,
}

abbrev pub Pointwise : (ℕ × TokenBucket → ℕ × TokenBucket → Type 0) → Buckets → Buckets → Type 0
Pointwise R [] [] = Unit {0}
Pointwise R [] (y ∷ ys) = ⊥
Pointwise R (x ∷ xs) [] = ⊥
Pointwise R (x ∷ xs) (y ∷ ys) = R x y × Pointwise R xs ys

abbrev pub Each : (ℕ → TokenBucket → Type 0) → Buckets → Type 0
Each P [] = Unit {0}
Each P ((d, b) ∷ bs) = P d b × Each P bs

-- The counts of a bucket are below 2 ^ 62 and within the local quota.
pub record Within (b : TokenBucket) : Type 0 where
  pub used : b.bucket_stat ≤ b.local_max_amount
  pub small : b.local_max_amount < 2 ^ 62

-- The bucket has counted `amount` more, in the same period, and is within its quota.
pub record Counted (amount : ℕ) (x y : ℕ × TokenBucket) : Type 0 where
  pub period : y.0 ≡ x.0
  pub stat : y.1.bucket_stat ≡ x.1.bucket_stat + amount
  pub time : y.1.bucket_time ≡ x.1.bucket_time
  pub limit : y.1.local_max_amount ≡ x.1.local_max_amount
  pub within : Within y.1

-- A request at time `now` is in the period that the bucket counts.
abbrev pub Current : ℕ → ℕ → TokenBucket → Type 0
Current now d b = (now / d ≡ b.bucket_time) × Within b

module _ (amount now : ℕ) (few : amount < 2 ^ 62) where
  -- The token that the bucket gives in its own period, and the bucket after it.
  get_token_local :
      (t : ℕ) (b : TokenBucket)
      → t ≡ b.bucket_time
      → Within b
      → get_token b amount t false ≡ record {
        bucket = record b { bucket_stat = b.bucket_stat + amount };
        granted = not (ltb b.local_max_amount (b.bucket_stat + amount));
        left_quota = sub64 b.local_max_amount (b.bucket_stat + amount);
      }
  unfolding get_token roll
  get_token_local t b same v =
      let e : add64 b.bucket_stat amount ≡ b.bucket_stat + amount =
        add64_exact b.bucket_stat amount (omega (arith, v.used, v.small)) (omega arith) in
      let f : lt_int64 (sub64 b.local_max_amount (b.bucket_stat + amount)) 0
          ≡ ltb b.local_max_amount (b.bucket_stat + amount) =
        lt_int64-sub64 b.local_max_amount (b.bucket_stat + amount) (omega (arith, v.small))
          (omega (arith, v.used, v.small)) in
      ground (arith, same, e, f)

  get_token-Counted :
      (d : ℕ) (b : TokenBucket)
      → Current now d b
      → let t = get_token b amount (now / d) false in
        ((t.granted ≡ true) × Counted amount (d, b) (d, t.bucket))
        ⊎ ((t.granted ≡ false) × Counted 0 (d, b) (d, return_token amount false t.bucket))
  unfolding return_token
  get_token-Counted d b (same, v) =
      rw (get_token_local (now / d) b same v) (ground (arith, v.used, v.small))

  Counted-return_token :
      (d : ℕ) (b c : TokenBucket)
      → Counted amount (d, b) (d, c)
      → Counted 0 (d, b) (d, return_token amount false c)
  unfolding return_token
  Counted-return_token d b c k =
      let e : sub64 c.bucket_stat amount ≡ c.bucket_stat - amount =
        sub64_exact c.bucket_stat amount (omega (arith, k.within.used, k.within.small))
          (omega (arith, k.stat)) in
      ground (arith, e, k.stat, k.time, k.limit, k.within.used, k.within.small)

  untouched : (bs : Buckets) → Each (Current now) bs → Pointwise (Counted 0) bs bs
  untouched [] c = tt
  untouched ((d, b) ∷ bs) (c, cs) = (
    record { period = refl; stat = omega arith; time = refl; limit = refl; within = c.1 },
    untouched bs cs,
  )

  -- Every bucket has granted, or one has refused and with the amounts returned none has changed.
  AllOrNone : Buckets → Grab → Type 0
  AllOrNone bs g =
      ((g.violated ≡ none) × Pointwise (Counted amount) bs g.asked)
      ⊎ (((v : ℕ × ℕ) × (g.violated ≡ some v))
          × Pointwise (Counted 0) bs (return_all amount false g.asked ++ g.behind))

  grab-AllOrNone :
      (bs : Buckets) (left : ℕ)
      → Each (Current now) bs
      → AllOrNone bs (grab amount now false bs left)
  unfolding grab AllOrNone return_all
  grab-AllOrNone [] left cs = inl (refl, tt)
  grab-AllOrNone ((d, b) ∷ bs) left (c, cs) = elim (get_token-Counted d b c) [
    | inl (granted, k) ↦
        rw granted (elim (grab-AllOrNone bs (get_token b amount (now / d) false).left_quota cs) [
          | inl (none_, r) ↦ inl (none_, (k, r))
          | inr (some_, r) ↦ inr (some_, (Counted-return_token d b _ k, r))
        ])
    | inr (refused, k) ↦ rw refused (inr ((_, refl), (k, untouched bs cs)))
  ]

  -- A request that the rule decides by the local quotas, in the period that every bucket counts, is
  -- granted and counted by every bucket, or is limited and changes the counts of none. Either way
  -- every bucket stays within its local quota.
  pub allocate_all_or_none :
      (q : QpsBucket)
      → use_remote_quota q now ≡ false
      → q.failover_type ≡ failover_local
      → Each (Current now) q.token_buckets
      → let r = allocate q amount now in
        ((r.0.result_code ≡ quota_result_ok)
          × Pointwise (Counted amount) q.token_buckets r.2.token_buckets)
        ⊎ ((r.0.result_code ≡ quota_result_limited)
            × Pointwise (Counted 0) q.token_buckets r.2.token_buckets)
  unfolding allocate AllOrNone
  allocate_all_or_none q alone strict cs = elim (grab-AllOrNone q.token_buckets 0 cs) [
    | inl (none_, r) ↦ inl (rw (alone, none_) refl, rw (alone, none_) r)
    | inr ((v, some_), r) ↦ inr (rw (alone, some_, strict) refl, rw (alone, some_) r)
  ]
