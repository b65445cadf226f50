-- ===== src/Limits/Tests.antt =====
-- Runs of the two throttles, and the theorems at concrete inputs.
use sakura_monitoring.Base.{
  ℕ, ◌+◌, ◌-◌, ◌*◌, ◌≤◌, ◌≡◌, refl, true, false, List, [], ◌∷◌, String, arith, nat_eq, string_eq,
}
use sakura_monitoring.Base.Map.{get, insert, retain}
use sakura_monitoring.Limits.RateLimiter
use sakura_monitoring.Limits.RateLimiter.{
  TokenWindow, McpRateLimiter, allow, run, admitted, admit, second, minute,
}
use sakura_monitoring.Limits.RateLimiter.Budget.{admitted-le-twice, run-new-IsWithinLimit}
use sakura_monitoring.Limits.RateLimiter.Pruning.{sweep_forgives}
use sakura_monitoring.Limits.AuditThrottle
use sakura_monitoring.Limits.AuditThrottle.{AuditThrottle, recorded, recorded_for}
use sakura_monitoring.Limits.AuditThrottle.Budget.{recorded-le-twice}

abbrev small : McpRateLimiter
small = RateLimiter.new 2 3

abbrev burst : List (ℕ × ℕ)
burst =
    (7, 5 * minute)
    ∷ (7, 5 * minute + 1)
    ∷ (7, 5 * minute + 2)
    ∷ (7, 5 * minute + second + 3)
    ∷ (8, 5 * minute + second + 4)
    ∷ (7, 5 * minute + second + 5)
    ∷ []

-- Two calls in the first second, one in the next, which fills the minute.
burst-admitted : admitted 7 small burst ≡ 3
unfolding admitted RateLimiter.new allow admit get insert retain
burst-admitted = refl

admitted-le-twice_example : admitted 7 (run (RateLimiter.new 2 3) burst) burst ≤ 6
unfolding RateLimiter.new allow admit get insert retain run
admitted-le-twice_example =
    admitted-le-twice (5 * minute) 7 (run small burst) burst (omega arith)
      (run-new-IsWithinLimit 2 3 7 burst (omega arith)) (omega arith)

abbrev spent_window : TokenWindow
spent_window = record {
  sec_bucket_start = 5 * minute - 1;
  sec_count = 2;
  min_bucket_start = 4 * minute;
  min_count = 2;
}

abbrev due : McpRateLimiter
due = record { per_token = (7, spent_window) ∷ []; sec_limit = 2; min_limit = 3; last_prune = 0 }

sweep_forgives_example :
    ((allow due 7 (5 * minute)).1 ≡ true)
    × ((allow (record due { last_prune = 5 * minute }) 7 (5 * minute)).1 ≡ false)
unfolding get
sweep_forgives_example =
    sweep_forgives due 7 (5 * minute) spent_window (omega arith) (refl, tt) refl (omega arith)
      (omega arith) (omega arith) (omega arith) (omega arith) (omega arith)

abbrev failures : List (String × ℕ)
failures = ("", 10) ∷ ("a", 11) ∷ ("", 12) ∷ ("", 13) ∷ ("a", 14) ∷ []

abbrev tight : AuditThrottle
tight = AuditThrottle.new 100 2

-- The third failure of the unknown source is dropped.
failures-recorded : recorded tight failures ≡ 4
unfolding recorded AuditThrottle.new AuditThrottle.should_record get insert retain
failures-recorded = refl

recorded-le-twice_example : recorded (AuditThrottle.new 100 2) failures ≤ 120
unfolding AuditThrottle.new
recorded-le-twice_example = recorded-le-twice 10 tight failures (omega arith) (omega arith)
