-- ===== src/Lib.antt =====
-- A model of the parts of SakuraMonitoring's dashboard (the fork of nezha in upstream/nezha) that
-- decide who owns a server, which agent may speak for it, and how often a caller may act, with the
-- theorems that make them correct.
--
-- Parts and files
--   Base, Base/*         shared names: Boolean tests, lists, and Go's map as an association list
--                        (Base/Map) with the laws of get, insert, delete and of `range` loops.
--   Limits/*             upstream/nezha/cmd/dashboard/controller/mcp_ratelimit.go (RateLimiter) and
--                        upstream/nezha/cmd/dashboard/controller/mcp_transfer_audit_throttle.go (AuditThrottle). Budget and Pruning hold the
--                        theorems, Tests the examples.
--   Transfer/Types       upstream/nezha/model/server_transfer.go and the state of ServerTransferClass
--                        (upstream/nezha/service/singleton/server_transfer.go): the maps pending, revertDeliveries,
--                        terminalSecretRecovery, verifiedHandshakes and controlEpoch, with the rows
--                        of the database and the server cache that the class reads and writes.
--   Transfer/Lookup      LookupPending, LookupRevertDelivery, LookupByHandshakeSecret,
--                        LookupServerByVerifiedHandshakeSecret, LookupByTerminalSecretRecovery.
--   Transfer/Initiate    agentSupportsTransfer, Initiate, Register, InitiateExclusive.
--   Transfer/Push        sendApplyConfigTask, pushRevertIfOnline.
--   Transfer/Revert      revertTransition and Cancel, MarkFailed, MarkTimeout, sweepTimeouts.
--   Transfer/Verify      MarkVerified, MarkRevertDelivered.
--   Transfer/Deliver     PushIfOnline, OnAgentReconnect, Retry.
--   Transfer/Deleted     OnServersDeleted, OnUsersDeleted.
--   Transfer/Restart     NewServerTransferClass: the maps rebuilt from the database. Restart/Pending,
--                        Recovery with Entries, and Newest hold the theorems.
--   Transfer/Broker      Subscribe, Unsubscribe and broadcast, as a component of their own.
--   Transfer/Auth        check and authorizeAgentForUUID of upstream/nezha/service/rpc/auth.go.
--   Transfer/Steps       Initiate, Revert, Verify, Deliver, Deleted and Auth as a step relation within one
--                        run of the process: any caller, any order, any failure.
--   Transfer/Removal     Delete of upstream/nezha/service/singleton/server.go and batchDeleteServer of
--                        upstream/nezha/cmd/dashboard/controller/server.go.
--   Transfer/Lifetimes   the steps with restarts and the removal of servers.
--   Transfer/Invariant/* the agreement of the database, the cache and the pending index: lemmas
--                        for each operation, and the theorems on runs.
--   Transfer/Rollback, Outcome, Opening, Credentials, Admission, Reconnect
--                        what the operations promise to their callers.
--   Alert/Check          Check and RetentionWindow of upstream/nezha/model/alertrule.go with the rule types of
--                        upstream/nezha/model/rule.go. Alert/Reference judges each condition by itself; Retention
--                        is about the samples that are kept.
--   Alert/Timed          CheckTimed, over the wall-clock time that the samples cover. Alert/Instants says what
--                        the samples mean at each instant, Measuring compares the measured times with it,
--                        and Coverage is about the decisions. The threshold float64(window)*0.70 is a parameter.
--   Alert/Sentinel       checkStatusForServer of upstream/nezha/service/singleton/alertsentinel.go: one rule on one
--                        server over its ticks. Alert/Sentinel/Alternation holds the theorems.
--   Waf/*                powAdd, CheckIP, BlockIP and UnblockIP of upstream/nezha/model/waf.go over the
--                        rows of the firewall table.
--   Streams/Registry     upstream/nezha/service/rpc/io_stream_registry.go and io_stream_quota.go: the live relay
--                        streams, their quotas, and the two ends of a stream.
--   Streams/Lifecycle    upstream/nezha/service/rpc/io_stream_lifecycle.go: how streams are detached and closed.
--   Streams/Relay, Starting
--                        IOStream of upstream/nezha/service/rpc/io_stream_rpc.go, and startStreamContext of
--                        upstream/nezha/service/rpc/io_stream.go.
--   Streams/Steps        the operations of the registry as steps; Preservation is the interface that an
--                        invariant fills to hold along every run, Soundness, Quota, Stability, Endpoints and
--                        Agents are about runs, Detaching, Detached and Ending about the end of streams.
--   Streams/Revocation   the hook by which a transfer ends the streams to its server.
--   Tokens/Scopes, Servers
--                        upstream/nezha/model/api_token.go: the scopes and the server list of an access token. Csv,
--                        Decimal and Whitelist are about their storage, Migration is MigrateLegacyMCPScopes,
--                        Normalized and Migrated are about what it leaves.
--   Batch                batchMoveServer of upstream/nezha/cmd/dashboard/controller/server.go with patAllowsServer of
--                        permissions.go beside it; Batch/Turns is about one server, Results about
--                        the whole request.
--   Control              upstream/nezha/service/singleton/server_control.go: who may operate a server while it moves.
--                        Control/Leases holds the theorems; Transfer/Epochs/* follows the control epoch
--                        through every operation on transfers.
--   Urls                 the one-time URLs of upstream/nezha/cmd/dashboard/controller/mcp_transfer.go: mint, consume, purge,
--                        collection and revalidateTransferEntry. Urls/Redeeming, Once and Ownership hold the
--                        theorems.
--
-- How the code is read
--   A record holds what the code keeps in a struct or a table, and each operation is a function from
--   the state to its result and the next state. Each operation is one step, so a run is a
--   sequence of steps; what another caller does in the middle of an operation is modelled for the
--   guarded update of revertTransition, and between the critical sections of IOStream and
--   startStreamContext. What the code gets from outside is an argument: the clock, random secrets,
--   which database calls fail, whether a stream takes a task, the status that a concurrent caller
--   wrote first, and golang.org/x/mod/semver (the record Semver). Times are natural numbers of
--   nanoseconds. The mutex `initiating` is within one step, so it is not part of the state. One clock
--   reading stands for all rounds of a deletion. Every function is structurally recursive.
--   formatUint fills a buffer of 20 bytes, which is enough for every uint64. The ids of rows and the
--   control epochs are numbers without a bound: they are uint64 counters that start at 0 and gain one
--   at a time. The ids of an access token and the generation of the stream registry wrap around.
--   White space is that of ASCII.
--
-- Not modelled
--   Logging, closed channels (in Transfer/Types a list of events stands for the subscribers), JSON
--   payloads but for the secret in them, the text of errors, the handlers that save a server's row as a
--   whole, and the other parts of the dashboard.
pub mod Base
pub mod Limits
pub mod Transfer
pub mod Alert
pub mod Waf
pub mod Streams
pub mod Tokens
pub mod Batch
pub mod Control
pub mod Urls
