-- ===== src/CircuitBreaker/ErrorRate/Window.antt =====
-- The sliding window of ErrorRateCircuitBreaker: a call counts once, and what it overwrites is out
-- of the window.
use polaris_cpp.Base.{
  ℕ, ◌+◌, ◌-◌, ◌*◌, ◌/◌, ◌%◌, ◌^◌, ◌≤◌, ◌<◌, ◌≡◌, ◌⊎◌, inl, inr, true, List, [], ◌∷◌, some, arith,
  dec_lt, add32, sub64, sub64_exact, ap, get_elem?, set, zero, suc, ltb, if◌then◌else◌,
}
use polaris_cpp.CircuitBreaker.Status.{CallRetStatus, close}
use polaris_cpp.CircuitBreaker.ErrorRate.{
  ErrorRateBucket, buckets_count, count_in_bucket, failed, on_call, Settings, ErrorRateStatus,
}
use native.Mathlib.Omega.{div_any}

-- What one bucket adds to a window that begins after `last_end`.
abbrev share_total : ℕ → ErrorRateBucket → ℕ
share_total last_end b = if ltb last_end b.bucket_time then b.total_count else 0

abbrev share_error : ℕ → ErrorRateBucket → ℕ
share_error last_end b = if ltb last_end b.bucket_time then b.error_count else 0

count_small :
    (e : ℕ) (bs : List ErrorRateBucket)
    → ((buckets_count e bs).total_req < 2 ^ 32) × ((buckets_count e bs).err_req < 2 ^ 32)
unfolding buckets_count
count_small e [] = ground arith
count_small e (x ∷ bs) = ground (arith, count_small e bs)

-- Writing one bucket moves the window's sums by what that bucket adds more.
count_set :
    (e : ℕ) (bs : List ErrorRateBucket) (i : ℕ) (b b' : ErrorRateBucket) (err : ℕ)
    → get_elem? bs i ≡ some b
    → share_total e b' ≡ add32 (share_total e b) 1
    → share_error e b' ≡ add32 (share_error e b) err
    → ((buckets_count e (set bs i b')).total_req ≡ add32 (buckets_count e bs).total_req 1)
      × ((buckets_count e (set bs i b')).err_req ≡ add32 (buckets_count e bs).err_req err)
unfolding buckets_count
count_set e [] i b b' err h t r = cc
count_set e (x ∷ bs) zero b b' err h t r = ground (arith, h, t, r, count_small e bs)
count_set e (x ∷ bs) (suc i) b b' err h t r = ground (arith, count_set e bs i b b' err h t r)

-- The ring holds only times of its own slot, and none ahead of now.
abbrev pub Placed : ℕ → ℕ → ErrorRateBucket → Type 0
Placed num bucket_time b =
    (b.bucket_time ≤ bucket_time)
    × ((b.bucket_time % num ≡ bucket_time % num) ⊎ (b.bucket_time ≡ 0))

mul_le : (n a b : ℕ) → a < b → n * a + n ≤ n * b
mul_le n zero (suc b) h = omega arith
mul_le n (suc a) (suc b) h = omega (arith, mul_le n a b (omega arith))
mul_le n zero zero h = omega arith
mul_le n (suc a) zero h = omega arith

-- A time of the same slot that is not this one is at least a round ago.
round_ago : (num t u : ℕ) → 0 < num → u ≤ t → u % num ≡ t % num → (u ≡ t) ⊎ (u ≤ t - num)
round_ago num t u pos le e = elim (dec_lt (u / num) (t / num)) [
  | yes p ↦ inr (omega (arith, div_any t num, div_any u num, mul_le num (u / num) (t / num) p))
  | no p ↦ elim (dec_lt (t / num) (u / num)) [
    | yes q ↦ inl (omega (arith, div_any t num, div_any u num, mul_le num (t / num) (u / num) q))
    | no q ↦
        let same : u / num ≡ t / num = omega arith in
        inl (omega (arith, div_any t num, div_any u num, ap (λ x. num * x) same))
  ]
]

-- A call at bucket time `bucket_time`, once the ring has at least one round behind it: the window
-- that ends now has exactly one call more, and one error more if the call failed. The bucket that
-- the call takes over was a round ago, out of the window.
pub report_counted :
    (num bucket_time : ℕ) (ret : CallRetStatus) (bs : List ErrorRateBucket) (b : ErrorRateBucket)
    → 0 < num
    → num ≤ bucket_time
    → bucket_time < 2 ^ 63
    → get_elem? bs (bucket_time % num) ≡ some b
    → Placed num bucket_time b
    → let last_end = sub64 bucket_time num in
      let before = buckets_count last_end bs in
      let after =
        buckets_count last_end
          (set bs (bucket_time % num) (count_in_bucket true bucket_time ret b)) in
      (after.total_req ≡ add32 before.total_req 1)
      × (after.err_req ≡ add32 before.err_req (failed ret))
unfolding count_in_bucket
report_counted num t ret bs b pos round small at (le, here) =
    let e : sub64 t num ≡ t - num = sub64_exact t num small round in
    let old : (b.bucket_time ≡ t) ⊎ (b.bucket_time ≤ t - num) = elim here [
      | inl same ↦ round_ago num t b.bucket_time pos le same
      | inr zero_ ↦ inr (omega arith)
    ] in
    count_set (sub64 t num) bs (t % num) b (count_in_bucket true t ret b) (failed ret) at
      (ground (arith, e, old)) (ground (arith, e, old))

on_call_closed :
    {F : Type 0} (s : Settings F) (now : ℕ) (ret : CallRetStatus) (st : ErrorRateStatus)
    (b : ErrorRateBucket)
    → st.status ≡ close
    → get_elem? st.buckets (now / s.metric_bucket_time % s.metric_num_buckets) ≡ some b
    → (on_call s true now ret st).buckets
      ≡ set st.buckets
          (now / s.metric_bucket_time % s.metric_num_buckets)
          (count_in_bucket true (now / s.metric_bucket_time) ret b)
unfolding on_call
on_call_closed s now ret st b closed at = ground (arith, closed, at)

-- RealTimeCircuitBreak of ErrorRateCircuitBreaker on a closed instance, where the weak exchange of
-- the bucket's time succeeds, there is at least one bucket, at least one full round of bucket times
-- has passed since time 0, the bucket time is below 2 ^ 63, and the bucket in the call's slot is
-- Placed (its time is not ahead of now, and is of the same slot, or 0 as at first): in the window of
-- one round that ends now, as the timer counts it, there is exactly one call more than before, and
-- one error more exactly if the call failed. Counts wrap at 32 bits.
pub on_call_counted :
    {F : Type 0} (s : Settings F) (now : ℕ) (ret : CallRetStatus) (st : ErrorRateStatus)
    (b : ErrorRateBucket)
    → st.status ≡ close
    → 0 < s.metric_num_buckets
    → s.metric_num_buckets ≤ now / s.metric_bucket_time
    → now / s.metric_bucket_time < 2 ^ 63
    → get_elem? st.buckets (now / s.metric_bucket_time % s.metric_num_buckets) ≡ some b
    → Placed s.metric_num_buckets (now / s.metric_bucket_time) b
    → let last_end = sub64 (now / s.metric_bucket_time) s.metric_num_buckets in
      let before = buckets_count last_end st.buckets in
      let after = buckets_count last_end (on_call s true now ret st).buckets in
      (after.total_req ≡ add32 before.total_req 1)
      × (after.err_req ≡ add32 before.err_req (failed ret))
on_call_counted s now ret st b closed pos round small at placed =
    rw (on_call_closed s now ret st b closed at) (
      report_counted s.metric_num_buckets (now / s.metric_bucket_time) ret st.buckets b pos round
        small at placed)
