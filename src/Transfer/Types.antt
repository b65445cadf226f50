-- ===== src/Transfer/Types.antt =====
-- The rows of model/server_transfer.go, and the state of `ServerTransferClass` with the parts of the
-- database and of `ServerShared` that it reads and writes. The pointers in its maps are values here:
-- each row that the code mutates through a pointer leaves all maps but one in the same critical
-- section. Times are nanoseconds.
use sakura_monitoring.Base.{
  ℕ, ◌+◌, ◌*◌, Bool, true, false, not, Option, none, some, List, ◌∷◌, String, leb, ◌==◌,
  if◌then◌else◌, nat_eq, string_eq,
}
use sakura_monitoring.Base.Map.{Map, get, insert, delete}

pub data Status : Type 0 where
  pending verified failed timed_out cancelled : Status

-- `IsTerminal`
abbrev pub is_terminal : Status → Bool
is_terminal pending = false
is_terminal verified = true
is_terminal failed = true
is_terminal timed_out = true
is_terminal cancelled = true

pub record ServerTransfer : Type 0 where
  pub id : ℕ
  pub server_id : ℕ
  pub from_user_id : ℕ
  pub to_user_id : ℕ
  pub initiator_id : ℕ
  pub status : Status
  pub last_error : String
  pub acked_at : Option ℕ
  pub handshake_secret : String
  pub revert_handshake_secret : String
  pub created_at : ℕ
  pub updated_at : ℕ

-- A server as `ServerShared` holds it: its owner, the task stream that is attached, and the version
-- that the agent reported (`none` where no host report arrived).
pub record Server : Type 0 where
  pub user_id : ℕ
  pub uuid : String
  pub task_stream : Option ℕ
  pub host_version : Option String

-- An ApplyConfig task as it was sent: the server, the transfer's id, and the secret in its payload.
pub record Task : Type 0 where
  pub server : ℕ
  pub id : ℕ
  pub client_secret : String

pub record World : Type 0 where
  -- the database: the transfer rows, the next row id, and the owner column of the server rows
  pub transfers : Map ℕ ServerTransfer
  pub next_id : ℕ
  pub db_owner : Map ℕ ℕ
  -- ServerShared
  pub servers : Map ℕ Server
  pub uuid_to_id : Map String ℕ
  -- ServerTransferClass
  pub pending : Map ℕ ServerTransfer
  pub revert_deliveries : Map ℕ ServerTransfer
  pub terminal_secret_recovery : Map ℕ ServerTransfer
  pub verified_handshakes : Map ℕ String
  pub control_epoch : Map ℕ ℕ
  -- what the outside sees: tasks sent, servers whose streams were revoked, and events, newest first
  pub sent : List Task
  pub revoked : List ℕ
  pub events : List ServerTransfer

pub data TransferError : Type 0 where
  already_transferring agent_too_old no_randomness db_error not_found owner_rows : TransferError
  not_terminal target_missing already_owner : TransferError

pub data Result {ℓ} (A : Type ℓ) : Type ℓ where
  ok : A → Result A
  err : TransferError → Result A

abbrev pub hour : ℕ
hour = 3_600_000_000_000

-- `defaultServerTransferTimeout` and `defaultRevertDeliveryRecoveryWindow`
abbrev pub transfer_timeout : ℕ
transfer_timeout = 24 * hour

abbrev pub recovery_window : ℕ
recovery_window = transfer_timeout

-- `t.Before(now.Add(-window))`
abbrev pub is_older : ℕ → ℕ → ℕ → Bool
is_older window now t = not (leb now (t + window))

-- A server that is not cached is left out.
unfoldable pub own : ℕ → ℕ → Map ℕ Server → Map ℕ Server
own id uid servers = elim (get id servers) [
  | none ↦ servers
  | some s ↦ insert id (record s { user_id = uid }) servers
]

-- `ServerShared.setUserID`
abbrev pub set_user_id : ℕ → ℕ → World → World
set_user_id id uid w = record w { servers = own id uid w.servers }

-- `ServerTransferRevokeStreamsForServer`
abbrev pub revoke_streams : ℕ → World → World
revoke_streams id w = record w { revoked = id ∷ w.revoked }

-- `broadcast`, as the broker sees it
abbrev pub broadcast : ServerTransfer → World → World
broadcast t w = record w { events = t ∷ w.events }

-- `if existing, ok := m[t.ServerID]; ok && existing.ID == t.ID { delete(m, t.ServerID) }`
unfoldable pub delete_same : ℕ → ℕ → Map ℕ ServerTransfer → Map ℕ ServerTransfer
delete_same server id m = elim (get server m) [
  | none ↦ m
  | some t ↦ if t.id == id then delete server m else m
]

-- An update `WHERE id = ? AND status = pending`: the rows after it, and whether it found its row.
unfoldable pub cas_row :
    ℕ → (ServerTransfer → ServerTransfer) → Map ℕ ServerTransfer → Map ℕ ServerTransfer × Bool
cas_row id f rows = elim (get id rows) [
  | none ↦ (rows, false)
  | some t ↦ if is_terminal t.status then (rows, false) else (insert id (f t) rows, true)
]

-- `UPDATE servers SET user_id = ? WHERE id = ?`: none where no row was affected.
unfoldable pub update_owner : ℕ → ℕ → Map ℕ ℕ → Option (Map ℕ ℕ)
update_owner server uid owners = elim (get server owners) [
  | none ↦ none
  | some old ↦ some (insert server uid owners)
]
