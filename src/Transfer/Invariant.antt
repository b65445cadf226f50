-- ===== src/Transfer/Invariant.antt =====
-- The state of the database and the cache of pending transfers agree, and every operation keeps it.
pub mod Consistent
pub mod Begin
pub mod End
pub mod Verifying
pub mod Settling
pub mod Delivery
pub mod Authenticating
pub mod Reaching
