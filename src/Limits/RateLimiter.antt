-- ===== src/Limits/RateLimiter.antt =====
-- upstream/nezha/cmd/dashboard/controller/mcp_ratelimit.go. Times are nanoseconds on the
-- limiter's clock; the mutex makes each call one step, and the clock reading is an argument.
pub mod Budget
pub mod Pruning
use sakura_monitoring.Base.{
  ℕ, ◌+◌, ◌*◌, Bool, true, false, not, ◌||◌, Option, none, some, List, [], ◌∷◌, leb, ◌==◌,
  if◌then◌else◌, nat_eq,
}
use sakura_monitoring.Base.Map.{Map, empty, get, insert, retain}

abbrev pub second : ℕ
second = 1_000_000_000

abbrev pub minute : ℕ
minute = 60_000_000_000

pub record TokenWindow : Type 0 where
  pub sec_bucket_start : ℕ
  pub sec_count : ℕ
  pub min_bucket_start : ℕ
  pub min_count : ℕ

pub record McpRateLimiter : Type 0 where
  pub per_token : Map ℕ TokenWindow
  pub sec_limit : ℕ
  pub min_limit : ℕ
  pub last_prune : ℕ

-- `mcpRateLimiterPruneInterval`
abbrev pub prune_interval : ℕ
prune_interval = minute

-- `newMCPRateLimiterWithClock`; the zero time is 0.
unfoldable pub new : ℕ → ℕ → McpRateLimiter
new sec_limit min_limit = record {
  per_token = empty;
  sec_limit = sec_limit;
  min_limit = min_limit;
  last_prune = 0;
}

-- The test of the loop in `pruneStaleLocked`, negated.
abbrev pub is_live : ℕ → ℕ → TokenWindow → Bool
is_live now id w = not (leb (w.min_bucket_start + minute) now)

unfoldable pub prune_stale : McpRateLimiter → ℕ → McpRateLimiter
prune_stale r now = record r { per_token = retain (is_live now) r.per_token }

-- `Allow` sweeps the map at most once in a prune interval.
unfoldable pub sweep : McpRateLimiter → ℕ → McpRateLimiter
unfolding prune_stale
sweep r now =
    if leb (r.last_prune + prune_interval) now
    then record (prune_stale r now) { last_prune = now }
    else r

-- The window that `Allow` works on: the stored one, or a fresh one.
unfoldable pub window : ℕ → Option TokenWindow → TokenWindow
window now none = record {
  sec_bucket_start = now;
  sec_count = 0;
  min_bucket_start = now;
  min_count = 0;
}
window now (some w) = w

unfoldable pub roll_sec : ℕ → TokenWindow → TokenWindow
roll_sec now w =
    if leb (w.sec_bucket_start + second) now
    then record w { sec_bucket_start = now; sec_count = 0 }
    else w

unfoldable pub roll_min : ℕ → TokenWindow → TokenWindow
roll_min now w =
    if leb (w.min_bucket_start + minute) now
    then record w { min_bucket_start = now; min_count = 0 }
    else w

-- The limits' test and the two increments.
unfoldable pub spend : ℕ → ℕ → TokenWindow → TokenWindow × Bool
spend sec_limit min_limit w =
    if leb sec_limit w.sec_count || leb min_limit w.min_count
    then (w, false)
    else (record w { sec_count = w.sec_count + 1; min_count = w.min_count + 1 }, true)

-- What `Allow` does with one token's window.
unfoldable pub admit : ℕ → ℕ → ℕ → Option TokenWindow → TokenWindow × Bool
unfolding window roll_sec roll_min spend
admit sec_limit min_limit now o =
    spend sec_limit min_limit (roll_min now (roll_sec now (window now o)))

unfoldable pub allow : McpRateLimiter → ℕ → ℕ → McpRateLimiter × Bool
unfolding sweep
allow r id now =
    if id == 0
    then (r, true)
    else let s = sweep r now in
      let (w, ok) = admit s.sec_limit s.min_limit now (get id s.per_token) in
      (record s { per_token = insert id w s.per_token }, ok)

-- A history of calls, each a token and a clock reading: the limiter after it.
unfoldable pub run : McpRateLimiter → List (ℕ × ℕ) → McpRateLimiter
run r [] = r
run r ((id, now) ∷ calls) = run (allow r id now).0 calls

-- How many calls of a token a history admits.
unfoldable pub admitted : ℕ → McpRateLimiter → List (ℕ × ℕ) → ℕ
admitted id r [] = 0
admitted id r ((j, now) ∷ calls) =
    let (s, ok) = allow r j now in
    (if (if j == id then ok else false) then 1 else 0) + admitted id s calls
