-- ===== src/Limits/RateLimiter/Pruning.antt =====
-- What the sweep of idle windows may change. The comment on `pruneStaleLocked` says that it cannot
-- change any later decision; that holds where the second bucket is over too.
use sakura_monitoring.Base.{ℕ, ◌+◌, ◌≤◌, ◌<◌, ◌≡◌, ◌≢◌, true, false, none, some, arith, nat_eq}
use sakura_monitoring.Limits.RateLimiter.{
  TokenWindow, McpRateLimiter, second, minute, prune_interval, is_live, sweep, admit, allow,
}
use sakura_monitoring.Base.Map.{IsMap, get, get-retain}

-- Once both buckets of a window are over, the call decides, and leaves the window, as it would with
-- no window stored.
pub admit_idle :
    (sec_limit min_limit now : ℕ) (w : TokenWindow)
    → w.sec_bucket_start + second ≤ now
    → w.min_bucket_start + minute ≤ now
    → admit sec_limit min_limit now (some w) ≡ admit sec_limit min_limit now none
unfolding admit
admit_idle sec_limit min_limit now w s m = ground arith

-- The stored window of a token has its minute bucket over and its second bucket neither over nor
-- below its limit, and both limits are positive. Then a call at which the map is swept is admitted,
-- and the same call with no sweep due is refused.
pub sweep_forgives :
    (r : McpRateLimiter) (id now : ℕ) (w : TokenWindow)
    → id ≢ 0
    → IsMap r.per_token
    → get id r.per_token ≡ some w
    → 0 < r.sec_limit
    → 0 < r.min_limit
    → w.min_bucket_start + minute ≤ now
    → now < w.sec_bucket_start + second
    → r.sec_limit ≤ w.sec_count
    → r.last_prune + prune_interval ≤ now
    → ((allow r id now).1 ≡ true) × ((allow (record r { last_prune = now }) id now).1 ≡ false)
unfolding allow sweep admit
sweep_forgives r id now w nz d stored ps pm m s full due =
    ground (arith, get-retain (is_live now) id r.per_token d)
