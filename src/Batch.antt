-- ===== src/Batch.antt =====
-- The handler `batchMoveServer` of upstream/nezha/cmd/dashboard/controller/server.go, from the point
-- where the form was read.
pub mod Turns
pub mod Results
mod Tests
use sakura_monitoring.Base.{
  ℕ, Bool, true, false, not, ◌&&◌, ◌||◌, Option, none, some, List, [], ◌∷◌, ◌==◌, if◌then◌else◌,
  nat_eq,
}
use sakura_monitoring.Base.Map.{get}
use sakura_monitoring.Tokens.Scopes.{ApiToken}
use sakura_monitoring.Tokens.Servers.{can_access_server}
use sakura_monitoring.Transfer.Types.{
  World, Server, ServerTransfer, Result, ok, err, TransferError, already_transferring,
  agent_too_old,
}
use sakura_monitoring.Transfer.Initiate.{Semver, InitiateEnv, initiate_exclusive}
use sakura_monitoring.Transfer.Revert.{RevertEnv}
use sakura_monitoring.Transfer.Deliver.{push_if_online}

-- Who calls: the user, whether an administrator, and the personal access token, if the call has one.
pub record Caller : Type 0 where
  pub uid : ℕ
  pub is_admin : Bool
  pub token : Option ApiToken

-- `patAllowsServer`
unfoldable pub pat_allows_server : Caller → ℕ → Bool
unfolding can_access_server
pat_allows_server c server = elim c.token [ none ↦ true | some t ↦ can_access_server t server ]

-- `BatchMoveServerResultStatus`; permission_denied is never returned.
pub data MoveStatus : Type 0 where
  is_pending is_transferring server_not_found same_owner is_too_old : MoveStatus

-- `BatchMoveServerResult`
pub record MoveResult : Type 0 where
  pub server_id : ℕ
  pub status : MoveStatus
  pub transfer_id : ℕ
  pub error : Option TransferError

abbrev pub refusal : ℕ → MoveStatus → MoveResult
refusal server status = record {
  server_id = server;
  status = status;
  transfer_id = 0;
  error = none;
}

-- What the environment answers in the turn of one server.
pub record MoveEnv : Type 0 where
  pub initiation : InitiateEnv
  pub push : RevertEnv
  pub now : ℕ

-- The `switch` on the error of `InitiateExclusive`
abbrev pub refused_initiation : ℕ → TransferError → MoveResult
refused_initiation server already_transferring = refusal server is_transferring
refused_initiation server agent_too_old = record (refusal server is_too_old) {
  error = some agent_too_old;
}
refused_initiation server e = record (refusal server server_not_found) { error = some e }

unfoldable pub finish_move :
    Semver → MoveEnv → ℕ → Result ServerTransfer × World → MoveResult × World
unfolding push_if_online
finish_move semver env server (err e, w) = (refused_initiation server e, w)
finish_move semver env server (ok t, w) = (
  record { server_id = server; status = is_pending; transfer_id = t.id; error = none },
  push_if_online semver env.push env.now t w,
)

-- One turn of the loop, for a server that is known
unfoldable pub move_known : Semver → MoveEnv → Caller → ℕ → ℕ → Server → World → MoveResult × World
unfolding pat_allows_server finish_move initiate_exclusive
move_known semver env c to server s w =
    if not (pat_allows_server c server)
    then (refusal server server_not_found, w)
    else if not c.is_admin && not (s.user_id == c.uid)
    then (refusal server server_not_found, w)
    else if s.user_id == to
    then (refusal server same_owner, w)
    else finish_move semver env server
        (initiate_exclusive semver env.initiation server s.user_id to c.uid env.now w)

unfoldable pub move_one : Semver → MoveEnv → Caller → ℕ → ℕ → World → MoveResult × World
unfolding move_known
move_one semver env c to server w = elim (get server w.servers) [
  | none ↦ (refusal server server_not_found, w)
  | some s ↦ move_known semver env c to server s w
]

-- The loop, each id with the answers of the environment in its turn
unfoldable pub move_all : Semver → Caller → ℕ → List (ℕ × MoveEnv) → World → List MoveResult × World
unfolding move_one
move_all semver c to [] w = ([], w)
move_all semver c to ((server, env) ∷ ids) w =
    let first = move_one semver env c to server w in
    let rest = move_all semver c to ids first.1 in (first.0 ∷ rest.0, rest.1)

pub data BatchResult : Type 0 where
  user_required permission_denied no_such_user : BatchResult
  moved : List MoveResult → BatchResult

-- `batchMoveServer`
unfoldable pub batch_move_server :
    Semver
    → (user_exists : ℕ → Bool) → Caller
    → ℕ
    → List (ℕ × MoveEnv)
    → World
    → BatchResult × World
unfolding move_all
batch_move_server semver user_exists c to ids w =
    if to == 0
    then (user_required, w)
    else if not c.is_admin && not (to == c.uid)
    then (permission_denied, w)
    else if not (user_exists to)
    then (no_such_user, w)
    else (let all = move_all semver c to ids w in (moved all.0, all.1))
