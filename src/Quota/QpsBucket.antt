-- ===== src/Quota/QpsBucket.antt =====
-- polaris/quota/quota_bucket_qps.{h,cpp}: RemoteAwareQpsBucket, the token buckets of all periods of
-- one rule. The std::map by period is a list in ascending order of the periods.
pub mod Allocation
pub mod Period
pub mod Returned
use polaris_cpp.Base.{
  ℕ, ◌+◌, ◌-◌, ◌/◌, ◌%◌, ◌^◌, Bool, true, false, not, ◌&&◌, Option, none, some, List, [], ◌∷◌, ◌++◌,
  map, ◌==◌, ltb, leb, lt_int64, add64, sub64, if◌then◌else◌, lookup, insert, nat_key,
}
use polaris_cpp.Quota.TokenBucket
use polaris_cpp.Quota.TokenBucket.{
  TokenBucket, RateLimitAmount, QuotaUsage, Taken, get_token, return_token, refresh_token,
  prepare_pending_quota, max_time,
}

pub data RateLimitType : Type 0 where
  global local : RateLimitType

pub data FailoverType : Type 0 where
  failover_local failover_pass : FailoverType

abbrev pub Buckets : Type 0
Buckets = List (ℕ × TokenBucket)

pub record QpsBucket : Type 0 where
  pub rate_limit_type : RateLimitType
  pub failover_type : FailoverType
  pub remote_timeout_duration : ℕ
  pub token_buckets : Buckets
  pub last_remote_sync_time : ℕ

pub data QuotaResultCode : Type 0 where
  quota_result_ok quota_result_limited : QuotaResultCode

-- QuotaResponse with its QuotaResultInfo, and LimitAllocateResult.
pub record Response : Type 0 where
  pub result_code : QuotaResultCode
  pub left_quota : ℕ
  pub all_quota : ℕ
  pub duration : ℕ
  pub is_degrade : Bool

pub record LimitAllocateResult : Type 0 where
  pub max_amount : ℕ
  pub violate_duration : ℕ
  pub is_degrade : Bool

-- What the first loop of Allocate leaves: the buckets that it asked, those behind the one that
-- refused, that one's period and limit, and what the last bucket asked has left.
pub record Grab : Type 0 where
  pub asked : Buckets
  pub behind : Buckets
  pub violated : Option (ℕ × ℕ)
  pub left_quota : ℕ

unfoldable pub grab : ℕ → ℕ → Bool → Buckets → ℕ → Grab
grab amount now remote [] left = record {
  asked = [];
  behind = [];
  violated = none;
  left_quota = left;
}
grab amount now remote ((d, b) ∷ bs) left =
    let t = get_token b amount (now / d) remote in
    let rest = grab amount now remote bs t.left_quota in
    if t.granted then record rest { asked = (d, t.bucket) ∷ rest.asked } else record {
      asked = (d, t.bucket) ∷ [];
      behind = bs;
      violated = some (d, t.bucket.global_max_amount);
      left_quota = t.left_quota;
    }

-- The loop that returns the amount to the buckets asked.
unfoldable pub return_all : ℕ → Bool → Buckets → Buckets
return_all amount remote [] = []
return_all amount remote ((d, b) ∷ bs) =
    (d, return_token amount remote b) ∷ return_all amount remote bs

-- `token_buckets_.rbegin()`; the constructor asserts that there is one.
unfoldable pub last_of : Buckets → Option (ℕ × TokenBucket)
last_of [] = none
last_of (x ∷ []) = some x
last_of (x ∷ y ∷ xs) = last_of (y ∷ xs)

abbrev pub is_global : RateLimitType → Bool
is_global global = true
is_global local = false

abbrev pub is_pass : FailoverType → Bool
is_pass failover_pass = true
is_pass failover_local = false

unfoldable pub remote_not_timeout : QpsBucket → ℕ → Bool
remote_not_timeout q now = ltb now (add64 q.last_remote_sync_time q.remote_timeout_duration)

unfoldable pub use_remote_quota : QpsBucket → ℕ → Bool
unfolding remote_not_timeout
use_remote_quota q now = is_global q.rate_limit_type && remote_not_timeout q now

abbrev pub finish : QpsBucket → Bool → Bool → ℕ → Grab → Response × LimitAllocateResult × QpsBucket
finish q remote degrade amount g = elim g.violated [
  | none ↦
      let last = last_of g.asked in
      (
        record {
          result_code = quota_result_ok;
          left_quota = g.left_quota;
          all_quota = elim last [ none ↦ 0 | some x ↦ x.1.global_max_amount ];
          duration = elim last [ none ↦ 0 | some x ↦ x.0 ];
          is_degrade = degrade;
        },
        record { max_amount = 0; violate_duration = 0; is_degrade = degrade },
        record q { token_buckets = g.asked },
      )
  | some (d, limit) ↦ (
    record {
      result_code =
          if not remote && is_pass q.failover_type then quota_result_ok else quota_result_limited;
      left_quota = 0;
      all_quota = limit;
      duration = d;
      is_degrade = degrade;
    },
    record { max_amount = limit % 2 ^ 32; violate_duration = d; is_degrade = degrade },
    record q { token_buckets = return_all amount remote g.asked ++ g.behind },
  )
]

-- Allocate. `max_amount_` of the limit result is a uint32_t.
unfoldable pub allocate : QpsBucket → ℕ → ℕ → Response × LimitAllocateResult × QpsBucket
allocate q amount now =
    let remote = use_remote_quota q now in
    finish q remote (not (remote_not_timeout q now)) amount
      (grab amount now remote q.token_buckets 0)

-- `token_buckets_[d] = b`, in the order of the periods.
unfoldable pub put_bucket : ℕ → TokenBucket → Buckets → Buckets
put_bucket d b [] = (d, b) ∷ []
put_bucket d b ((k, c) ∷ bs) =
    if ltb d k
    then (d, b) ∷ (k, c) ∷ bs
    else if d == k
    then (d, b) ∷ bs
    else (k, c) ∷ put_bucket d b bs

unfoldable pub fill_buckets : List RateLimitAmount → ℕ → Buckets → Buckets
unfolding put_bucket
fill_buckets [] now bs = bs
fill_buckets (a ∷ as_) now bs =
    fill_buckets as_ now (put_bucket a.valid_duration (TokenBucket.init a now a.max_amount) bs)

-- The constructor: one bucket for each period of the rule, and the shortest period as the timeout.
-- It asserts that the rule has an amount: `none` otherwise.
unfoldable pub new : RateLimitType → FailoverType → List RateLimitAmount → ℕ → Option QpsBucket
new type_ failover amounts now = elim (fill_buckets amounts now []) [
  | [] ↦ none
  | (d, b) ∷ bs ↦ some (record {
    rate_limit_type = type_;
    failover_type = failover;
    remote_timeout_duration = d;
    token_buckets = (d, b) ∷ bs;
    last_remote_sync_time = now;
  })
]

pub record QuotaUsageInfo : Type 0 where
  pub create_server_time : ℕ
  pub quota_usage : List (ℕ × QuotaUsage)

pub record RemoteQuotaResult : Type 0 where
  pub current_server_time : ℕ
  pub local_usage : Option QuotaUsageInfo
  pub remote_usage : QuotaUsageInfo

-- What this process had reported of the period, if the report is of the current bucket.
unfoldable pub local_used : Option QuotaUsageInfo → ℕ → ℕ → ℕ
local_used none d current_bucket_time = 0
local_used (some u) d current_bucket_time =
    if u.create_server_time / d == current_bucket_time
    then (elim (lookup d u.quota_usage) [ none ↦ 0 | some x ↦ x.quota_allocated ])
    else 0

-- The body of SetRemoteQuota's loop for a known period: the time of the next report, and the bucket.
unfoldable pub set_remote_one :
    ℕ → RemoteQuotaResult → ℕ → QuotaUsage → TokenBucket → ℕ × TokenBucket
unfolding local_used
set_remote_one last_sync r d usage b =
    let now = r.current_server_time in
    let bucket_time : ℕ = now / d in
    let remote_quota =
      if r.remote_usage.create_server_time / d == bucket_time
      then usage.quota_allocated
      else b.global_max_amount in
    let time_in_bucket : ℕ = now % d in
    let res =
      refresh_token b remote_quota (local_used r.local_usage d bucket_time) bucket_time
        (leb (add64 last_sync d) now) time_in_bucket in
    let before_use_up = add64 (sub64 d time_in_bucket) (res.1.use_up_time.last_use_up_time / 2) in
    (if lt_int64 remote_quota 0 && ltb before_use_up res.0 then before_use_up else res.0, res.1)

-- A period that the rule does not have is skipped.
unfoldable pub set_remote_at :
    ℕ → RemoteQuotaResult → ℕ → QuotaUsage → Option TokenBucket → ℕ → Buckets → ℕ × Buckets
set_remote_at last_sync r d usage none next bs = (next, bs)
set_remote_at last_sync r d usage (some b) next bs =
    let res = set_remote_one last_sync r d usage b in
    (if ltb res.0 next then res.0 else next, insert d res.1 bs)

unfoldable pub set_remote_loop :
    ℕ → RemoteQuotaResult → List (ℕ × QuotaUsage) → ℕ → Buckets → ℕ × Buckets
unfolding set_remote_at
set_remote_loop last_sync r [] next bs = (next, bs)
set_remote_loop last_sync r ((d, usage) ∷ us) next bs =
    let res = set_remote_at last_sync r d usage (lookup d bs) next bs in
    set_remote_loop last_sync r us res.0 res.1

-- SetRemoteQuota: the wait until the next report, and the new state.
unfoldable pub set_remote_quota : QpsBucket → RemoteQuotaResult → ℕ × QpsBucket
set_remote_quota q r =
    let res =
      set_remote_loop q.last_remote_sync_time r r.remote_usage.quota_usage max_time
        q.token_buckets in
    (res.0, record q { token_buckets = res.1; last_remote_sync_time = r.current_server_time })

unfoldable pub usage_loop : ℕ → Buckets → List (ℕ × QuotaUsage) × Buckets
usage_loop now [] = ([], [])
usage_loop now ((d, b) ∷ bs) =
    let r = prepare_pending_quota b (now / d) in
    let rest = usage_loop now bs in ((d, r.0) ∷ rest.0, (d, r.1) ∷ rest.1)

-- GetQuotaUsage.
unfoldable pub get_quota_usage : QpsBucket → ℕ → QuotaUsageInfo × QpsBucket
unfolding usage_loop
get_quota_usage q now =
    let r = usage_loop now q.token_buckets in
    (record { create_server_time = now; quota_usage = r.0 }, record q { token_buckets = r.1 })

-- UpdateLimitAmount: `none` where the code asserts that the period is known.
unfoldable pub update_limits : List RateLimitAmount → Buckets → Option Buckets
update_limits [] bs = some bs
update_limits (a ∷ as_) bs = elim (lookup a.valid_duration bs) [
  | none ↦ none
  | some b ↦
      update_limits as_
        (insert a.valid_duration (TokenBucket.update_limit_amount b a a.max_amount) bs)
]
