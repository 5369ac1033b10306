-- ===== src/Quota/TokenBucket.antt =====
-- polaris/quota/quota_bucket_qps.{h,cpp}: TokenBucket, the quota of one period of a rule. `int64_t`
-- and `uint64_t` fields are 64-bit patterns. Each method is one step: a compare-and-exchange finds
-- what the method read before it.
use polaris_cpp.Base.{
  ℕ, ◌-◌, ◌/◌, ◌^◌, Bool, true, false, not, ◌&&◌, ◌==◌, ltb, lt_int64, add64, sub64, mul64,
  if◌then◌else◌,
}

-- Time::kMaxTime.
abbrev pub max_time : ℕ
max_time = 2 ^ 64 - 1

pub record RemoteQuotaInfo : Type 0 where
  pub remote_token_total : ℕ
  pub remote_token_left : ℕ
  pub quota_need_sync : ℕ
  pub limit_request : ℕ

pub record QuotaUseUpTime : Type 0 where
  pub last_use_up_time : ℕ
  pub current_use_up_time : ℕ

-- QuotaUseUpTime::Update, Reset and Valid.
unfoldable pub update_use_up : QuotaUseUpTime → ℕ → QuotaUseUpTime
update_use_up u t =
    if u.current_use_up_time == max_time then record u { current_use_up_time = t } else u

unfoldable pub reset_use_up : QuotaUseUpTime → QuotaUseUpTime
reset_use_up u = record { last_use_up_time = u.current_use_up_time; current_use_up_time = max_time }

unfoldable pub valid_use_up : QuotaUseUpTime → Bool
valid_use_up u = not (u.last_use_up_time == max_time)

pub record TokenBucket : Type 0 where
  pub global_max_amount : ℕ
  pub local_max_amount : ℕ
  pub bucket_time : ℕ
  pub bucket_stat : ℕ
  pub pending_bucket_time : ℕ
  pub pending_bucket_stat : ℕ
  pub remote_quota : RemoteQuotaInfo
  pub use_up_time : QuotaUseUpTime

pub record RateLimitAmount : Type 0 where
  pub max_amount : ℕ
  pub valid_duration : ℕ

-- The constructor and Init. A duration of 0 divides by zero in C++; rules have none.
unfoldable pub init : RateLimitAmount → ℕ → ℕ → TokenBucket
init amount current_time local_max = record {
  global_max_amount = amount.max_amount;
  local_max_amount = local_max;
  bucket_time = current_time / amount.valid_duration;
  bucket_stat = 0;
  pending_bucket_time = current_time / amount.valid_duration;
  pending_bucket_stat = 0;
  remote_quota = record {
    remote_token_total = local_max;
    remote_token_left = local_max;
    quota_need_sync = 0;
    limit_request = 0;
  };
  use_up_time = record { last_use_up_time = max_time; current_use_up_time = max_time };
}

-- The reset at the head of GetToken, when a request is in another period than the counts.
unfoldable pub roll : TokenBucket → ℕ → TokenBucket
roll b expect_bucket_time = if expect_bucket_time == b.bucket_time then b else record b {
  bucket_time = expect_bucket_time;
  bucket_stat = 0;
  pending_bucket_time = b.bucket_time;
  pending_bucket_stat = 0;
  remote_quota = record (b.remote_quota) {
    remote_token_total = b.local_max_amount;
    remote_token_left = b.local_max_amount;
    quota_need_sync = 0;
  };
}

pub record Taken : Type 0 where
  pub bucket : TokenBucket
  pub granted : Bool
  pub left_quota : ℕ

unfoldable pub take_remote : TokenBucket → ℕ → Taken
take_remote b amount =
    let q = b.remote_quota in
    let left = sub64 q.remote_token_left amount in
    if lt_int64 left 0
    then record {
      bucket = record b {
        remote_quota = record q {
          remote_token_left = left;
          limit_request = add64 q.limit_request amount;
        };
      };
      granted = false;
      left_quota = left;
    }
    else record {
      bucket = record b {
        remote_quota = record q {
          remote_token_left = left;
          quota_need_sync = add64 q.quota_need_sync amount;
        };
      };
      granted = true;
      left_quota = left;
    }

-- GetToken.
unfoldable pub get_token : TokenBucket → ℕ → ℕ → Bool → Taken
unfolding take_remote
get_token bucket amount expect_bucket_time use_remote_quota =
    let b = roll bucket expect_bucket_time in
    let used = add64 b.bucket_stat amount in
    let counted : TokenBucket = record b { bucket_stat = used } in
    let left = sub64 b.local_max_amount used in
    if use_remote_quota
    then take_remote counted amount
    else record { bucket = counted; granted = not (lt_int64 left 0); left_quota = left }

-- ReturnToken.
unfoldable pub return_token : ℕ → Bool → TokenBucket → TokenBucket
return_token amount use_remote_quota b =
    let back : TokenBucket = record b { bucket_stat = sub64 b.bucket_stat amount } in
    if use_remote_quota
    then record back {
      remote_quota = record (b.remote_quota) {
        remote_token_left = add64 b.remote_quota.remote_token_left amount;
      };
    }
    else back

-- RefreshToken: a response of another period drops the counts of the old one.
unfoldable pub refresh_period : TokenBucket → ℕ → TokenBucket
refresh_period b current_bucket_time =
    if b.bucket_time == current_bucket_time then b else record b {
      bucket_time = current_bucket_time;
      bucket_stat = 0;
      remote_quota = record (b.remote_quota) { quota_need_sync = 0 };
    }

-- The quota left after a response: what was used while the report was under way is deducted.
unfoldable pub deduct_used : RemoteQuotaInfo → ℕ → ℕ → ℕ
deduct_used q remote_left ack_quota =
    let used = sub64 (sub64 q.remote_token_total q.remote_token_left) ack_quota in
    sub64 remote_left (if lt_int64 0 used then used else 0)

-- The two estimates of the next report. `new_left * (time + 1) / used / 2 + 1` is unsigned in C++,
-- since `time_in_bucket` is.
unfoldable pub next_report : TokenBucket → ℕ → ℕ → ℕ
unfolding valid_use_up
next_report b new_left time_in_bucket =
    let used = sub64 b.global_max_amount new_left in
    let by_rate =
      if lt_int64 0 used && lt_int64 0 new_left
      then add64 (mul64 new_left (add64 time_in_bucket 1) / used / 2) 1
      else max_time in
    let last = b.use_up_time.last_use_up_time in
    let by_last = add64 (sub64 last time_in_bucket / 2) 1 in
    if valid_use_up b.use_up_time && ltb time_in_bucket last && ltb by_last by_rate
    then by_last
    else by_rate

-- The acknowledgement at the end of RefreshToken.
unfoldable pub acknowledge : TokenBucket → ℕ → ℕ → TokenBucket
unfolding reset_use_up
acknowledge b ack_quota current_bucket_time =
    if b.pending_bucket_time == current_bucket_time
    then (if lt_int64 b.pending_bucket_stat ack_quota
        then b
        else record b { pending_bucket_stat = sub64 b.pending_bucket_stat ack_quota })
    else record b {
      pending_bucket_stat = 0;
      pending_bucket_time = current_bucket_time;
      use_up_time = reset_use_up b.use_up_time;
    }

unfoldable pub refresh_token : TokenBucket → ℕ → ℕ → ℕ → Bool → ℕ → ℕ × TokenBucket
refresh_token bucket remote_left ack_quota current_bucket_time remote_quota_expired time_in_bucket =
    let b = refresh_period bucket current_bucket_time in
    let left =
      if remote_quota_expired
      then remote_left
      else deduct_used b.remote_quota remote_left ack_quota in
    let b' : TokenBucket = record b {
      remote_quota = record (b.remote_quota) {
        remote_token_total = remote_left;
        remote_token_left = left;
      };
    } in
    if remote_quota_expired
    then (max_time, acknowledge b' ack_quota current_bucket_time)
    else if lt_int64 0 remote_left
    then (next_report b' left time_in_bucket, acknowledge b' ack_quota current_bucket_time)
    else (
      max_time,
      acknowledge (record b' { use_up_time = update_use_up b.use_up_time time_in_bucket }) ack_quota
          current_bucket_time,
    )

pub record QuotaUsage : Type 0 where
  pub quota_allocated : ℕ
  pub quota_rejected : ℕ

-- The first half of PreparePendingQuota: what is reported, taken out of the counts.
unfoldable pub drain : TokenBucket → ℕ → QuotaUsage × TokenBucket
drain b pending_bucket_time =
    let q = b.remote_quota in
    if b.bucket_time == pending_bucket_time
    then (
      record { quota_allocated = q.quota_need_sync; quota_rejected = q.limit_request },
      record b { remote_quota = record q { quota_need_sync = 0; limit_request = 0 } },
    )
    else (record { quota_allocated = 0; quota_rejected = 0 }, b)

-- PreparePendingQuota.
unfoldable pub prepare_pending_quota : TokenBucket → ℕ → QuotaUsage × TokenBucket
unfolding drain
prepare_pending_quota bucket pending_bucket_time =
    let r = drain bucket pending_bucket_time in
    let b = r.1 in
    (
      r.0,
      if b.pending_bucket_time == pending_bucket_time
          then record b { pending_bucket_stat = add64 b.pending_bucket_stat r.0.quota_allocated }
          else record b {
            pending_bucket_stat = r.0.quota_allocated;
            pending_bucket_time = pending_bucket_time;
          },
    )

-- UpdateLimitAmount.
unfoldable pub update_limit_amount : TokenBucket → RateLimitAmount → ℕ → TokenBucket
update_limit_amount b amount local_max = record b {
  global_max_amount = amount.max_amount;
  local_max_amount = local_max;
}
