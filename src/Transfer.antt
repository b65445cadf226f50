-- ===== src/Transfer.antt =====
-- Ownership transfers of servers: upstream/nezha/service/singleton/server_transfer.go, the rows of
-- upstream/nezha/model/server_transfer.go and the authentication of agents in
-- upstream/nezha/service/rpc/auth.go.
pub mod Types
pub mod Lookup
pub mod Initiate
pub mod Push
pub mod Revert
pub mod Verify
pub mod Deliver
pub mod Deleted
pub mod Auth
pub mod Steps
pub mod Invariant
pub mod Rollback
pub mod Outcome
pub mod Opening
pub mod Admission
pub mod Credentials
pub mod Reconnect
pub mod Restart
pub mod Removal
pub mod Lifetimes
pub mod Broker
pub mod Epochs
pub mod Tests
