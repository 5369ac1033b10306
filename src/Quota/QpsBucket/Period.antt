-- ===== src/Quota/QpsBucket/Period.antt =====
-- A series of requests to RemoteAwareQpsBucket::Allocate in one period.
use polaris_cpp.Base.{ℕ, ◌+◌, ◌^◌, ◌<◌, ◌≡◌, refl, ◌∙◌, inl, inr, false, List, [], ◌∷◌, arith}
use polaris_cpp.Quota.TokenBucket.{TokenBucket}
use polaris_cpp.Quota.QpsBucket.{
  QpsBucket, Buckets, QuotaResultCode, allocate, local, failover_local, quota_result_ok,
  quota_result_limited, use_remote_quota,
}
use polaris_cpp.Quota.QpsBucket.Allocation.{
  Pointwise, Each, Within, Counted, Current, allocate_all_or_none,
}

-- Requests, each an amount and a time.
abbrev pub Requests : Type 0
Requests = List (ℕ × ℕ)

abbrev pub granted_of : QuotaResultCode → ℕ → ℕ
granted_of quota_result_ok amount = amount
granted_of quota_result_limited amount = 0

-- The sum of the amounts granted, and the bucket after the requests.
unfoldable pub serve : QpsBucket → Requests → ℕ × QpsBucket
serve q [] = (0, q)
serve q ((amount, now) ∷ rs) =
    let r = allocate q amount now in
    let rest = serve r.2 rs in (granted_of r.0.result_code amount + rest.0, rest.1)

-- Every request is small and in the period that the buckets count.
abbrev pub InPeriod : Buckets → Requests → Type 0
InPeriod bs [] = Unit {0}
InPeriod bs ((amount, now) ∷ rs) = (amount < 2 ^ 62) × Each (Current now) bs × InPeriod bs rs

counts_add :
    (m n : ℕ) (x y z : ℕ × TokenBucket) → Counted m x y → Counted n y z → Counted (m + n) x z
counts_add m n x y z p q = record {
  period = q.period ∙ p.period;
  stat = omega (arith, p.stat, q.stat);
  time = q.time ∙ p.time;
  limit = q.limit ∙ p.limit;
  within = q.within;
}

all_trans :
    (m n : ℕ) (xs ys zs : Buckets)
    → Pointwise (Counted m) xs ys
    → Pointwise (Counted n) ys zs
    → Pointwise (Counted (m + n)) xs zs
all_trans m n [] [] [] p q = tt
all_trans m n [] [] (z ∷ zs) p q = elim q [ ]
all_trans m n [] (y ∷ ys) zs p q = elim p [ ]
all_trans m n (x ∷ xs) [] zs p q = elim p [ ]
all_trans m n (x ∷ xs) (y ∷ ys) [] p q = elim q [ ]
all_trans m n (x ∷ xs) (y ∷ ys) (z ∷ zs) (p, ps) (q, qs) =
    (counts_add m n x y z p q, all_trans m n xs ys zs ps qs)

still_Current :
    (m now : ℕ) (xs ys : Buckets)
    → Pointwise (Counted m) xs ys
    → Each (Current now) xs
    → Each (Current now) ys
still_Current m now [] [] p c = tt
still_Current m now [] (y ∷ ys) p c = elim p [ ]
still_Current m now ((d, b) ∷ xs) [] p c = elim p [ ]
still_Current m now ((d, b) ∷ xs) ((d', b') ∷ ys) (p, ps) (c, cs) =
    ((ground (arith, p.period, p.time, c.0), p.within), still_Current m now xs ys ps cs)

still_InPeriod :
    (m : ℕ) (xs ys : Buckets) (rs : Requests)
    → Pointwise (Counted m) xs ys
    → InPeriod xs rs
    → InPeriod ys rs
still_InPeriod m xs ys [] p i = tt
still_InPeriod m xs ys ((amount, now) ∷ rs) p (few, c, i) =
    (few, still_Current m now xs ys p c, still_InPeriod m xs ys rs p i)

none_yet : (bs : Buckets) → Each (λ d b. Within b) bs → Pointwise (Counted 0) bs bs
none_yet [] w = tt
none_yet ((d, b) ∷ bs) (w, ws) = (
  record { period = refl; stat = omega arith; time = refl; limit = refl; within = w },
  none_yet bs ws,
)

kept_Within : (m : ℕ) (xs ys : Buckets) → Pointwise (Counted m) xs ys → Each (λ d b. Within b) ys
kept_Within m [] [] p = tt
kept_Within m [] (y ∷ ys) p = elim p [ ]
kept_Within m (x ∷ xs) [] p = elim p [ ]
kept_Within m (x ∷ xs) ((d, b) ∷ ys) (p, ps) = (p.within, kept_Within m xs ys ps)

-- Allocate changes neither the rule's kind nor what it does without the server.
allocate_rule :
    (q : QpsBucket) (amount now : ℕ)
    → ((allocate q amount now).2.rate_limit_type ≡ q.rate_limit_type)
      × ((allocate q amount now).2.failover_type ≡ q.failover_type)
unfolding allocate
allocate_rule q amount now = ground arith

local_alone : (q : QpsBucket) (now : ℕ) → q.rate_limit_type ≡ local → use_remote_quota q now ≡ false
unfolding use_remote_quota
local_alone q now h = ground (arith, h)

-- A local rule that limits without the server: over any requests in the period that its buckets
-- count, every bucket counts exactly the sum of the amounts granted, on top of what it had counted,
-- and that stays within its local quota.
pub serve-Within :
    (q : QpsBucket) (rs : Requests)
    → q.rate_limit_type ≡ local
    → q.failover_type ≡ failover_local
    → Each (λ d b. Within b) q.token_buckets
    → InPeriod q.token_buckets rs
    → Pointwise (Counted (serve q rs).0) q.token_buckets (serve q rs).1.token_buckets
unfolding serve
serve-Within q [] l f w i = none_yet q.token_buckets w
serve-Within q ((amount, now) ∷ rs) l f w (few, c, i) =
    let a = allocate q amount now in
    let k = allocate_rule q amount now in
    elim (allocate_all_or_none amount now few q (local_alone q now l) f c) [
      | inl (ok, p) ↦ rw ok (
          all_trans amount (serve a.2 rs).0 q.token_buckets a.2.token_buckets _ p (
            serve-Within a.2 rs (k.0 ∙ l) (k.1 ∙ f) (kept_Within amount _ _ p)
              (still_InPeriod amount _ _ rs p i)))
      | inr (limited, p) ↦ rw limited (
          all_trans 0 (serve a.2 rs).0 q.token_buckets a.2.token_buckets _ p (
            serve-Within a.2 rs (k.0 ∙ l) (k.1 ∙ f) (kept_Within 0 _ _ p)
              (still_InPeriod 0 _ _ rs p i)))
    ]
