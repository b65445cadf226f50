-- ===== src/Streams.antt =====
-- The relay streams between a user and an agent: upstream/nezha/service/rpc/io_stream.go and the files
-- io_stream_registry.go, io_stream_quota.go, io_stream_lifecycle.go, io_stream_state.go and
-- io_stream_rpc.go beside it.
pub mod Registry
pub mod Lifecycle
pub mod Steps
pub mod Preservation
pub mod Quota
pub mod Ending
pub mod Soundness
pub mod Detaching
pub mod Detached
pub mod Endpoints
pub mod Agents
pub mod Stability
pub mod Revocation
pub mod Relay
pub mod Starting
pub mod Attaching
-- pub mod State
mod Tests
