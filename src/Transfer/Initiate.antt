-- ===== src/Transfer/Initiate.antt =====
-- `Initiate`, `Register`, `InitiateExclusive` and the agent's version test.
use Prim.Native.Char.{code}
use Prim.Native.String
use Prim.Native.String.{[], ◌∷◌}
use sakura_monitoring.Base.{
  ℕ, suc, ◌+◌, Bool, true, false, not, ◌||◌, Option, none, some, String, ◌==◌, str_eq,
  if◌then◌else◌, nat_eq,
}
use sakura_monitoring.Base.Text.{trim_space}
use sakura_monitoring.Base.Map.{get, insert, delete}
use sakura_monitoring.Transfer.Types.{
  World, Server, ServerTransfer, Result, ok, err, already_transferring, agent_too_old,
  no_randomness, db_error, owner_rows, pending, set_user_id, revoke_streams, broadcast,
  update_owner,
}
use sakura_monitoring.Transfer.Lookup.{has_pending}

-- golang.org/x/mod/semver, as far as it is called.
pub record Semver : Type 0 where
  pub is_valid : String → Bool
  -- `semver.Compare(v, min) >= 0`
  pub is_at_least : String → String → Bool

-- `if !strings.HasPrefix(v, "v") { v = "v" + v }`
unfoldable pub with_v : String → String
with_v [] = "v"
with_v (c ∷ s) = if code c == b'v' then c ∷ s else String.◌++◌ "v" (c ∷ s)

-- `MinServerTransferAgentVersion`
abbrev pub min_agent_version : String
min_agent_version = "v1.18.0"

unfoldable pub version_supports : Semver → String → Bool
version_supports semver v =
    if str_eq v ""
    then true
    else not (semver.is_valid (with_v v)) || semver.is_at_least (with_v v) min_agent_version

-- `agentSupportsTransfer`: an unknown version passes.
unfoldable pub agent_supports : Semver → Server → Bool
agent_supports semver s = elim s.host_version [
  | none ↦ true
  | some v ↦ version_supports semver (trim_space v)
]

-- What the environment answers: the two random secrets (`none` is a failure of the source), and
-- whether the insert, the owner update and the commit fail.
pub record InitiateEnv : Type 0 where
  pub handshake : Option String
  pub revert_handshake : Option String
  pub create_fails : Bool
  pub owner_fails : Bool
  pub commit_fails : Bool

abbrev pub new_transfer : ℕ → ℕ → ℕ → ℕ → ℕ → String → String → World → ServerTransfer
new_transfer server from to initiator now handshake revert w = record {
  id = w.next_id;
  server_id = server;
  from_user_id = from;
  to_user_id = to;
  initiator_id = initiator;
  status = pending;
  last_error = "";
  acked_at = none;
  handshake_secret = handshake;
  revert_handshake_secret = revert;
  created_at = now;
  updated_at = now;
}

-- The owner update of `Initiate` and the commit around it; an error rolls the insert back.
unfoldable pub claim_owner : InitiateEnv → ServerTransfer → World → Result (ServerTransfer × World)
claim_owner env t w =
    if env.owner_fails
    then err db_error
    else elim (update_owner t.server_id t.to_user_id w.db_owner) [
      | none ↦ err owner_rows
      | some owners ↦
          if env.commit_fails
          then err db_error
          else ok (
            t,
            record w {
              transfers = insert t.id t w.transfers;
              next_id = suc w.next_id;
              db_owner = owners;
            },
          )
    ]

-- `Initiate`, in its transaction
unfoldable pub initiate :
    InitiateEnv → (server from to initiator now : ℕ) → World → Result (ServerTransfer × World)
unfolding claim_owner
initiate env server from to initiator now w = elim env.handshake [
  | none ↦ err no_randomness
  | some h ↦ elim env.revert_handshake [
    | none ↦ err no_randomness
    | some r ↦
        if env.create_fails
        then err db_error
        else claim_owner env (new_transfer server from to initiator now h r w) w
  ]
]

-- A Go map of numbers reads 0 where the key is missing.
abbrev pub epoch : Option ℕ → ℕ
epoch none = 0
epoch (some n) = n

-- The fields that `Register` writes under `c.mu`.
unfoldable pub publish : ServerTransfer → World → World
publish t w = record w {
  control_epoch = insert t.server_id (epoch (get t.server_id w.control_epoch) + 1) w.control_epoch;
  pending = insert t.server_id t w.pending;
  revert_deliveries = delete t.server_id w.revert_deliveries;
}

-- `Register`
unfoldable pub register : ServerTransfer → World → World
unfolding publish
register t w =
    broadcast t (revoke_streams t.server_id (publish t (set_user_id t.server_id t.to_user_id w)))

abbrev pub too_old : Semver → ℕ → World → Bool
too_old semver server w = elim (get server w.servers) [
  | none ↦ false
  | some s ↦ not (agent_supports semver s)
]

-- The result of an operation that may fail, beside the state that it leaves.
abbrev pub settle : World → Result (ServerTransfer × World) → Result ServerTransfer × World
settle w (err e) = (err e, w)
settle w (ok (t, w')) = (ok t, register t w')

-- `InitiateExclusive`. The `initiating` claim is set and cleared within the call, so between two
-- calls only `pending` can refuse.
unfoldable pub initiate_exclusive :
    Semver
    → InitiateEnv
    → (server from to initiator now : ℕ) → World
    → Result ServerTransfer × World
initiate_exclusive semver env server from to initiator now w =
    if too_old semver server w
    then (err agent_too_old, w)
    else if has_pending server w
    then (err already_transferring, w)
    else settle w (initiate env server from to initiator now w)
