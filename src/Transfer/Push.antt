-- ===== src/Transfer/Push.antt =====
-- Sending the rollback credential to an agent: `sendApplyConfigTask` and `pushRevertIfOnline`. A
-- send is one step under the per-server lock; whether the stream takes the task is the environment's.
use sakura_monitoring.Base.{
  ℕ, Bool, Option, none, some, String, ◌∷◌, ◌==◌, str_eq, if◌then◌else◌, nat_eq,
}
use sakura_monitoring.Base.Map.{get, insert}
use sakura_monitoring.Transfer.Types.{World, Server, ServerTransfer}
use sakura_monitoring.Transfer.Lookup.{lookup_revert_delivery, live_delivery, prune_delivery}

-- `sendApplyConfigTask`: a failed send drops the stream that it was made on.
unfoldable pub send_apply_config : Bool → ServerTransfer → String → Server → World → World
send_apply_config taken t secret s w =
    if taken
    then record w {
      sent = record { server = t.server_id; id = t.id; client_secret = secret } ∷ w.sent;
    }
    else record w { servers = insert t.server_id (record s { task_stream = none }) w.servers }

abbrev pub send_if_same : Bool → ServerTransfer → Server → Option ServerTransfer × World → World
send_if_same taken t s (none, w) = w
send_if_same taken t s (some current, w) =
    if current.id == t.id then send_apply_config taken t t.revert_handshake_secret s w else w

-- The part of `pushRevertIfOnline` after the server and its stream were found.
unfoldable pub push_revert_to : Bool → ℕ → ServerTransfer → Server → World → World
unfolding live_delivery prune_delivery send_apply_config
push_revert_to taken now t s w =
    if str_eq t.revert_handshake_secret ""
    then w
    else send_if_same taken t s (lookup_revert_delivery now t.server_id w)

-- `pushRevertIfOnline`
unfoldable pub push_revert_if_online : Bool → ℕ → ServerTransfer → World → World
unfolding push_revert_to
push_revert_if_online taken now t w = elim (get t.server_id w.servers) [
  | none ↦ w
  | some s ↦ elim s.task_stream [ none ↦ w | some stream ↦ push_revert_to taken now t s w ]
]
