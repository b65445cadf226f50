-- ===== src/Transfer/Revert.antt =====
-- `revertTransition`, the shared body of `Cancel`, `MarkFailed` and `MarkTimeout`, and the timeout
-- sweep.
use sakura_monitoring.Base.{
  ℕ, Bool, true, false, ◌||◌, ◌&&◌, Option, none, some, String, List, [], ◌∷◌, str_eq,
  if◌then◌else◌, nat_eq,
}
use sakura_monitoring.Base.Map.{Map, get, insert}
use sakura_monitoring.Transfer.Types.{
  World, ServerTransfer, Status, Result, ok, err, db_error, not_found, owner_rows, failed,
  timed_out, cancelled, is_terminal, is_older, transfer_timeout, set_user_id, revoke_streams,
  broadcast, update_owner, delete_same,
}
use sakura_monitoring.Transfer.Push.{push_revert_if_online}

-- What the environment answers: which of the database calls fail, whether the stream takes the
-- rollback task, and the status that a concurrent caller wrote between the read of the row and the
-- guarded update, if one did.
pub record RevertEnv : Type 0 where
  pub first_fails : Bool
  pub read_fails : Bool
  pub cas_fails : Bool
  pub reread_fails : Bool
  pub owner_fails : Bool
  pub commit_fails : Bool
  pub rival : Option Status
  pub taken : Bool

-- The row as the transaction leaves it in `t`, the state, and `transitionedByThisCall`.
pub record TxDone : Type 0 where
  pub row : ServerTransfer
  pub world : World
  pub transitioned : Bool

-- `updates`: the reason is written only where there is one.
abbrev pub terminated : Status → String → ℕ → ServerTransfer → ServerTransfer
terminated status reason now t = record t { status = status; last_error = reason; updated_at = now }

abbrev pub stored : Status → String → ℕ → ServerTransfer → ServerTransfer
stored status reason now t = record t {
  status = status;
  last_error = if str_eq reason "" then t.last_error else reason;
  updated_at = now;
}

-- The owner update after a guarded update that found its row, and the commit.
unfoldable pub give_back : RevertEnv → Status → String → ℕ → ServerTransfer → World → Result TxDone
give_back env status reason now t w =
    if env.owner_fails
    then err db_error
    else elim (update_owner t.server_id t.from_user_id w.db_owner) [
      | none ↦ err owner_rows
      | some owners ↦
          if env.commit_fails
          then err db_error
          else ok (record {
            row = terminated status reason now t;
            world = record w {
              transfers = insert t.id (stored status reason now t) w.transfers;
              db_owner = owners;
            };
            transitioned = true;
          })
    ]

-- The rival's row: its status only, the rest as it was read.
abbrev pub after_rival : Status → ServerTransfer → ServerTransfer
after_rival status t = record t { status = status }

-- The guarded update: it finds no row where a concurrent caller settled it first, and the row is
-- read again.
unfoldable pub guarded_update :
    RevertEnv → Status → String → ℕ → ServerTransfer → World → Result TxDone
unfolding give_back
guarded_update env status reason now t w = if env.cas_fails then err db_error else elim env.rival [
  | none ↦ give_back env status reason now t w
  | some other ↦
      if env.reread_fails || env.commit_fails
      then err db_error
      else ok (record {
        row = after_rival other t;
        world = record w { transfers = insert t.id (after_rival other t) w.transfers };
        transitioned = false;
      })
]

-- The transaction's function, on the row that its own read finds.
unfoldable pub revert_tx : RevertEnv → Status → String → ℕ → ServerTransfer → World → Result TxDone
unfolding guarded_update
revert_tx env status reason now t w =
    if env.read_fails
    then err db_error
    else if is_terminal t.status
    then (if env.commit_fails
        then err db_error
        else ok (record { row = t; world = w; transitioned = false }))
    else guarded_update env status reason now t w

-- The cache is healed whether or not this call made the transition.
unfoldable pub heal : ServerTransfer → World → World
unfolding delete_same
heal t w = record w {
  pending = if is_terminal t.status then delete_same t.server_id t.id w.pending else w.pending;
}

-- `registerRevertDelivery` and `registerTerminalSecretRecovery`
unfoldable pub register_recovery : ServerTransfer → World → World
register_recovery t w = record w {
  revert_deliveries = insert t.server_id t w.revert_deliveries;
  terminal_secret_recovery =
      if str_eq t.handshake_secret "" && str_eq t.revert_handshake_secret ""
      then w.terminal_secret_recovery
      else insert t.server_id t w.terminal_secret_recovery;
}

-- What follows the commit of the call that made the transition.
unfoldable pub roll_back : RevertEnv → ℕ → ServerTransfer → World → World
unfolding heal register_recovery push_revert_if_online
roll_back env now t w =
    let owned = heal t (set_user_id t.server_id t.from_user_id w) in
    push_revert_if_online env.taken now t
      (broadcast t (revoke_streams t.server_id (register_recovery t owned)))

-- The whole tail: no transfer is returned where this call did not make the transition.
abbrev pub finish : RevertEnv → ℕ → World → Result TxDone → Result (Option ServerTransfer) × World
finish env now w (err e) = (err e, w)
finish env now w (ok done) =
    if done.transitioned
    then (ok (some done.row), roll_back env now done.row done.world)
    else (ok none, heal done.row done.world)

unfoldable pub revert_transition :
    RevertEnv
    → Status
    → String
    → (transfer now : ℕ) → World
    → Result (Option ServerTransfer) × World
unfolding revert_tx roll_back
revert_transition env status reason transfer now w =
    if env.first_fails then (err db_error, w) else elim (get transfer w.transfers) [
      | none ↦ (err not_found, w)
      | some t ↦ finish env now w (revert_tx env status reason now t w)
    ]

-- `MarkFailed`, `MarkTimeout` and `Cancel`
abbrev pub mark_failed : RevertEnv → String → ℕ → ℕ → World → Result (Option ServerTransfer) × World
mark_failed env reason = revert_transition env failed reason

abbrev pub mark_timeout : RevertEnv → ℕ → ℕ → World → Result (Option ServerTransfer) × World
mark_timeout env = revert_transition env timed_out ""

abbrev pub cancel : RevertEnv → ℕ → ℕ → World → Result (Option ServerTransfer) × World
cancel env = revert_transition env cancelled ""

-- The snapshot of `sweepTimeouts`: the ids of the pending transfers that are too old.
unfoldable pub overdue : ℕ → Map ℕ ServerTransfer → List ℕ
overdue now [] = []
overdue now ((s, t) ∷ m) =
    let rest = overdue now m in
    if is_older transfer_timeout now t.created_at then t.id ∷ rest else rest

-- The goroutines of the sweep, in the order in which they take the locks.
unfoldable pub time_out_all : (ℕ → RevertEnv) → ℕ → List ℕ → World → World
time_out_all env now [] w = w
time_out_all env now (id ∷ ids) w = time_out_all env now ids (mark_timeout (env id) id now w).1

-- `sweepTimeouts`
unfoldable pub sweep_timeouts : (ℕ → RevertEnv) → ℕ → World → World
sweep_timeouts env now w = time_out_all env now (overdue now w.pending) w
