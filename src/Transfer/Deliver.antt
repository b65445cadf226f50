-- ===== src/Transfer/Deliver.antt =====
-- `PushIfOnline`, `OnAgentReconnect` and `Retry`.
use sakura_monitoring.Base.{
  ℕ, Bool, false, Option, none, some, String, ◌==◌, str_eq, if◌then◌else◌, nat_eq,
}
use sakura_monitoring.Base.Map.{get}
use sakura_monitoring.Transfer.Types.{
  World, Server, ServerTransfer, Result, ok, err, db_error, not_found, not_terminal, target_missing,
  already_owner, is_terminal,
}
use sakura_monitoring.Transfer.Lookup.{
  lookup_pending, lookup_revert_delivery, live_delivery, prune_delivery,
}
use sakura_monitoring.Transfer.Initiate.{Semver, InitiateEnv, agent_supports, initiate_exclusive}
use sakura_monitoring.Transfer.Push.{send_apply_config, push_revert_if_online}
use sakura_monitoring.Transfer.Revert.{RevertEnv, mark_failed}

-- `ErrAgentTooOldForTransfer.Error()`
abbrev pub too_old_message : String
too_old_message =
    "agent build older than v1.18.0 does not support server transfer (TaskTypeServerTransferApply)"

abbrev pub is_current : ServerTransfer → Option ServerTransfer → Bool
is_current t none = false
is_current t (some current) = current.id == t.id

-- Both looks at the pending entry happen in one step here; the second, under the send lock, is the
-- one that decides.
unfoldable pub push_handshake : Bool → ServerTransfer → Server → World → World
unfolding send_apply_config
push_handshake taken t s w =
    if is_current t (lookup_pending t.server_id w)
    then (if str_eq t.handshake_secret ""
        then w
        else send_apply_config taken t t.handshake_secret s w)
    else w

-- The part of `PushIfOnline` after the server and its stream were found.
unfoldable pub push_to : Semver → RevertEnv → ℕ → ServerTransfer → Server → World → World
unfolding push_handshake
push_to semver env now t s w =
    if agent_supports semver s
    then push_handshake env.taken t s w
    else (mark_failed env too_old_message t.id now w).1

-- `PushIfOnline`; the environment is that of its send, or of the rollback of an agent too old.
unfoldable pub push_if_online : Semver → RevertEnv → ℕ → ServerTransfer → World → World
unfolding push_to
push_if_online semver env now t w = elim (get t.server_id w.servers) [
  | none ↦ w
  | some s ↦ elim s.task_stream [ none ↦ w | some stream ↦ push_to semver env now t s w ]
]

abbrev pub redeliver : RevertEnv → ℕ → Option ServerTransfer × World → World
redeliver env now (none, w) = w
redeliver env now (some t, w) = push_revert_if_online env.taken now t w

-- `OnAgentReconnect`
unfoldable pub on_agent_reconnect : Semver → RevertEnv → (server now : ℕ) → World → World
unfolding push_if_online live_delivery prune_delivery
on_agent_reconnect semver env server now w = elim (lookup_pending server w) [
  | some t ↦ push_if_online semver env now t w
  | none ↦ redeliver env now (lookup_revert_delivery now server w)
]

abbrev pub then_push :
    Semver → RevertEnv → ℕ → Result ServerTransfer × World → Result ServerTransfer × World
then_push semver env now (err e, w) = (err e, w)
then_push semver env now (ok t, w) = (ok t, push_if_online semver env now t w)

-- The part of `Retry` after the server's row was read.
unfoldable pub retry_to :
    Semver
    → InitiateEnv
    → RevertEnv
    → Bool
    → ServerTransfer
    → (owner initiator now : ℕ) → World
    → Result ServerTransfer × World
retry_to semver ienv env target_exists prev owner initiator now w =
    if target_exists
    then (if owner == prev.to_user_id
        then (err already_owner, w)
        else then_push semver env now
            (initiate_exclusive semver ienv prev.server_id owner prev.to_user_id initiator now w))
    else (err target_missing, w)

-- `Retry`: whether the read of the server's row fails, and whether the target user exists, are the
-- environment's.
unfoldable pub retry :
    Semver
    → InitiateEnv
    → RevertEnv
    → (read_fails target_exists : Bool) → ServerTransfer
    → (initiator now : ℕ) → World
    → Result ServerTransfer × World
unfolding retry_to
retry semver ienv env read_fails target_exists prev initiator now w =
    if is_terminal prev.status
    then (if read_fails then (err db_error, w) else elim (get prev.server_id w.db_owner) [
      | none ↦ (err not_found, w)
      | some owner ↦ retry_to semver ienv env target_exists prev owner initiator now w
    ])
    else (err not_terminal, w)
