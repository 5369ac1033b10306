-- ===== src/Quota/QpsBucket/Returned.antt =====
-- TokenBucket::GetToken and ReturnToken on the remote quota, as Allocate pairs them on a refusal.
use polaris_cpp.Base.{ℕ, ◌-◌, ◌^◌, ◌≤◌, ◌<◌, ◌≡◌, true, arith, add64, sub64}
use polaris_cpp.Quota.TokenBucket.{TokenBucket, get_token, return_token, take_remote, roll}

-- An amount that the remote quota of a bucket grants, in the period that it counts, and that is then
-- returned: the count and the quota left are as before, but the amount still stands among what is
-- to be reported as used.
pub returned_still_reported :
    (b : TokenBucket) (amount t : ℕ)
    → t ≡ b.bucket_time
    → b.bucket_stat < 2 ^ 62
    → b.remote_quota.remote_token_left < 2 ^ 62
    → amount ≤ b.remote_quota.remote_token_left
    → let g = get_token b amount t true in
      let r = return_token amount true g.bucket in
      (g.granted ≡ true)
      × (r.bucket_stat ≡ b.bucket_stat)
      × (r.remote_quota.remote_token_left ≡ b.remote_quota.remote_token_left)
      × (r.remote_quota.quota_need_sync ≡ add64 b.remote_quota.quota_need_sync amount)
unfolding get_token return_token take_remote roll
returned_still_reported b amount t same few left enough =
    let e : sub64 b.remote_quota.remote_token_left amount
        ≡ b.remote_quota.remote_token_left - amount =
      omega (arith, left, enough) in
    ground (arith, same, few, left, enough, e)
