-- ===== src/Quota/Tests.antt =====
-- The theorems on the quota buckets at concrete inputs.
use polaris_cpp.Base.{◌≡◌, refl, [], ◌∷◌, false, ◌⊎◌, arith, true}
use polaris_cpp.Quota.TokenBucket.{TokenBucket, init, get_token, return_token}
use polaris_cpp.Quota.QpsBucket.Returned.{returned_still_reported}
use polaris_cpp.Quota.QpsBucket.{
  QpsBucket, allocate, local, failover_local, quota_result_ok, quota_result_limited,
  use_remote_quota,
}
use polaris_cpp.Quota.QpsBucket.Allocation.{
  Pointwise, Counted, Within, Current, Each, allocate_all_or_none,
}
use polaris_cpp.Quota.QpsBucket.Period.{serve, serve-Within}

-- Ten tokens in each second and 15 in two seconds.
abbrev second : TokenBucket
second = init (record { max_amount = 10; valid_duration = 1000 }) 4000 10

abbrev two_seconds : TokenBucket
two_seconds = init (record { max_amount = 15; valid_duration = 2000 }) 4000 15

abbrev rule : QpsBucket
rule = record {
  rate_limit_type = local;
  failover_type = failover_local;
  remote_timeout_duration = 1000;
  token_buckets = (1000, second) ∷ (2000, two_seconds) ∷ [];
  last_remote_sync_time = 4000;
}

second-Within : Within second
unfolding init
second-Within = record { used = omega arith; small = omega arith }

two_seconds-Within : Within two_seconds
unfolding init
two_seconds-Within = record { used = omega arith; small = omega arith }

is_alone : use_remote_quota rule 4100 ≡ false
unfolding use_remote_quota
is_alone = refl

in_second : Current 4100 1000 second
unfolding init
in_second = (refl, second-Within)

in_two_seconds : Current 4100 2000 two_seconds
unfolding init
in_two_seconds = (refl, two_seconds-Within)

all-Current : Each (Current 4100) rule.token_buckets
all-Current = (in_second, (in_two_seconds, tt))

allocate_all_or_none_example :
    let r = allocate rule 7 4100 in
    ((r.0.result_code ≡ quota_result_ok)
      × Pointwise (Counted 7) rule.token_buckets r.2.token_buckets)
    ⊎ ((r.0.result_code ≡ quota_result_limited)
        × Pointwise (Counted 0) rule.token_buckets r.2.token_buckets)
allocate_all_or_none_example =
    allocate_all_or_none 7 4100 (omega arith) rule is_alone refl all-Current

-- Of 7, 2, 4 and 1 the third is limited, so the buckets count 10.
serve-Within_example :
    let q = serve rule ((7, 4100) ∷ (2, 4100) ∷ (4, 4100) ∷ (1, 4100) ∷ []) in
    Pointwise (Counted q.0) rule.token_buckets q.1.token_buckets
serve-Within_example =
    serve-Within rule ((7, 4100) ∷ (2, 4100) ∷ (4, 4100) ∷ (1, 4100) ∷ []) refl refl
      (second-Within, (two_seconds-Within, tt))
      (
        omega arith,
        all-Current,
        (omega arith, all-Current, (omega arith, all-Current, (omega arith, all-Current, tt))),
      )

-- Ten tokens, of which two were used.
abbrev shared_second : TokenBucket
shared_second = record {
  global_max_amount = 10;
  local_max_amount = 10;
  bucket_time = 4;
  bucket_stat = 2;
  pending_bucket_time = 4;
  pending_bucket_stat = 0;
  remote_quota = record {
    remote_token_total = 10;
    remote_token_left = 8;
    quota_need_sync = 2;
    limit_request = 0;
  };
  use_up_time = record { last_use_up_time = 0; current_use_up_time = 0 };
}

returned_still_reported_example :
    let g = get_token shared_second 3 4 true in
    let r = return_token 3 true g.bucket in
    (g.granted ≡ true)
    × (r.bucket_stat ≡ 2)
    × (r.remote_quota.remote_token_left ≡ 8)
    × (r.remote_quota.quota_need_sync ≡ 5)
returned_still_reported_example =
    returned_still_reported shared_second 3 4 refl (omega arith) (omega arith) (omega arith)
