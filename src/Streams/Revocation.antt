-- ===== src/Streams/Revocation.antt =====
-- The transfers' hook into the registry: each server that a transfer revokes loses its streams,
-- `ServerTransferRevokeStreamsForServer`.
use sakura_monitoring.Base.{ℕ, ◌-◌, ◌≡◌, ◌≢◌, List, [], ◌∷◌, length, take, take-cons}
use sakura_monitoring.Transfer.Types.{World, ServerTransfer, ok}
use sakura_monitoring.Transfer.Initiate.{Semver, InitiateEnv, initiate_exclusive}
use sakura_monitoring.Transfer.Opening.{initiate_exclusive-IsOpened}
use sakura_monitoring.Streams.Registry.{Registry}
use sakura_monitoring.Streams.Lifecycle.{revoke_streams_for_server}
use sakura_monitoring.Streams.Steps.{IsRegistry}
use sakura_monitoring.Streams.Ending.{IsCutOff, revoke_streams_for_server-IsCutOff}

unfoldable pub revoke_each : List ℕ → Registry → Registry
unfolding revoke_streams_for_server
revoke_each [] r = r
revoke_each (server ∷ servers) r = revoke_streams_for_server server (revoke_each servers r)

-- The revocations that an operation on transfers made, the newest first, applied to the registry.
unfoldable pub run_hook : World → World → Registry → Registry
unfolding revoke_each
run_hook before after r =
    revoke_each (take (length after.revoked - length before.revoked) after.revoked) r

one_revocation :
    (server : ℕ) (before after : World) (r : Registry)
    → IsRegistry r
    → server ≢ 0
    → after.revoked ≡ server ∷ before.revoked
    → IsCutOff server r (run_hook before after r)
unfolding run_hook revoke_each
one_revocation server before after r h n e =
    let one : take (length after.revoked - length before.revoked) after.revoked ≡ server ∷ [] =
      rw e (take-cons server before.revoked) in
    rw (one, run_hook) (revoke_streams_for_server-IsCutOff server r h n)

-- When a sound registry is run along with the initiation of a transfer of a known server, the initiation
-- that returns a transfer leaves the old owner no stream to the server: all streams to it under nonempty
-- ids are gone with both ends closed, and every other stream is as before.
pub initiate_exclusive-IsCutOff :
    (semver : Semver) (env : InitiateEnv) (server from to initiator now : ℕ) (t : ServerTransfer)
    (w : World) (r : Registry)
    → IsRegistry r
    → server ≢ 0
    → let v = initiate_exclusive semver env server from to initiator now w in
      v.0 ≡ ok t → IsCutOff server r (run_hook w v.1 r)
initiate_exclusive-IsCutOff semver env server from to initiator now t w r h n e =
    let o = initiate_exclusive-IsOpened semver env server from to initiator now t w e in
    one_revocation server w (initiate_exclusive semver env server from to initiator now w).1 r h n
      o.revoked
