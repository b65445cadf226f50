-- ===== src/Limits.antt =====
-- The in-process throttles of cmd/dashboard/controller: the per-token rate limiter of the MCP
-- endpoint and the per-source throttle of anonymous audit rows.
pub mod RateLimiter
pub mod AuditThrottle
pub mod Tests
