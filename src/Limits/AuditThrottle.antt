-- ===== src/Limits/AuditThrottle.antt =====
-- upstream/nezha/cmd/dashboard/controller/mcp_transfer_audit_throttle.go. Times are nanoseconds on
-- the throttle's clock, 0 the zero time; the mutex makes each call one step.
pub mod Budget
use sakura_monitoring.Base.{
  ℕ, ◌+◌, Bool, true, false, not, ◌||◌, Option, none, some, List, [], ◌∷◌, String, leb, ◌==◌,
  str_eq, if◌then◌else◌, string_eq,
}
use sakura_monitoring.Base.Map.{Map, empty, get, insert, retain}

pub record AnonHitBucket : Type 0 where
  pub first_at : ℕ
  pub count : ℕ

pub record AuditThrottle : Type 0 where
  pub window : ℕ
  pub limit : ℕ
  pub global : AnonHitBucket
  pub hits : Map String AnonHitBucket

abbrev pub global_limit : ℕ
global_limit = 60

-- `newTransferAnonAuditThrottle`
unfoldable pub new : ℕ → ℕ → AuditThrottle
new window per_window = record {
  window = window;
  limit = per_window;
  global = record { first_at = 0; count = 0 };
  hits = empty;
}

-- The test of the loop in `pruneLocked`, negated.
abbrev pub is_live : ℕ → ℕ → String → AnonHitBucket → Bool
is_live window now ip b = not (leb (b.first_at + window) now)

unfoldable pub prune : AuditThrottle → ℕ → AuditThrottle
prune t now = record t { hits = retain (is_live t.window now) t.hits }

unfoldable pub roll_global : AuditThrottle → ℕ → AuditThrottle
roll_global t now =
    if t.global.first_at == 0 || leb (t.global.first_at + t.window) now
    then record t { global = record { first_at = now; count = 0 } }
    else t

abbrev count_global : AuditThrottle → AnonHitBucket
count_global t = record t.global { count = t.global.count + 1 }

-- A source with no bucket, or one whose window is over, starts a bucket at one hit.
unfoldable pub open_bucket : AuditThrottle → String → ℕ → AuditThrottle × Bool
open_bucket t ip now = (
  record t {
    global = count_global t;
    hits = insert ip (record { first_at = now; count = 1 }) t.hits;
  },
  true,
)

unfoldable pub hit_bucket : AuditThrottle → String → ℕ → AnonHitBucket → AuditThrottle × Bool
unfolding open_bucket
hit_bucket t ip now b =
    if leb (b.first_at + t.window) now
    then open_bucket t ip now
    else if leb t.limit b.count
    then (t, false)
    else (
      record t {
        global = count_global t;
        hits = insert ip (record b { count = b.count + 1 }) t.hits;
      },
      true,
    )

unfoldable pub charge : AuditThrottle → String → ℕ → AuditThrottle × Bool
unfolding hit_bucket
charge t ip now =
    if leb global_limit t.global.count
    then (t, false)
    else elim (get ip t.hits) [ none ↦ open_bucket t ip now | some b ↦ hit_bucket t ip now b ]

-- The key of a source: all unknown ones share a bucket.
unfoldable pub source : String → String
source ip = if str_eq ip "" then "unknown-peer" else ip

unfoldable pub should_record : AuditThrottle → String → ℕ → AuditThrottle × Bool
unfolding prune roll_global charge source
should_record t ip now = charge (roll_global (prune t now) now) (source ip) now

unfoldable pub run : AuditThrottle → List (String × ℕ) → AuditThrottle
run t [] = t
run t ((ip, now) ∷ calls) = run (should_record t ip now).0 calls

abbrev pub spent : Bool → ℕ
spent b = if b then 1 else 0

-- How many audit rows a history of failures writes.
unfoldable pub recorded : AuditThrottle → List (String × ℕ) → ℕ
recorded t [] = 0
recorded t ((ip, now) ∷ calls) = let (s, ok) = should_record t ip now in spent ok + recorded s calls

-- How many of them come from one source.
unfoldable pub recorded_for : String → AuditThrottle → List (String × ℕ) → ℕ
recorded_for key t [] = 0
recorded_for key t ((ip, now) ∷ calls) =
    let (s, ok) = should_record t ip now in
    spent (if str_eq (source ip) key then ok else false) + recorded_for key s calls
