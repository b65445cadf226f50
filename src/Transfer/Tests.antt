-- ===== src/Transfer/Tests.antt =====
-- A small state, runs of the operations on it, and the theorems at concrete inputs.
mod Rollback
mod Agents
mod Restarting
use sakura_monitoring.Base.{
  Has, ◌⊎◌, ℕ, ◌*◌, ◌≡◌, ◌≢◌, refl, ap, subst, true, false, none, some, [], ◌∷◌, arith, nat_eq,
  string_eq, ==_iff, str_eq_iff,
}
use sakura_monitoring.Base.Map.{get, insert, delete}
use sakura_monitoring.Transfer.Types.{
  World, Server, ServerTransfer, ok, err, already_transferring, db_error, pending, verified, failed,
  timed_out, cancelled, own, update_owner, delete_same, hour,
}
use sakura_monitoring.Transfer.Lookup.{live_delivery, prune_delivery}
use sakura_monitoring.Transfer.Initiate.{
  Semver, InitiateEnv, agent_supports, claim_owner, initiate, publish, register, initiate_exclusive,
}
use sakura_monitoring.Transfer.Push.{send_apply_config, push_revert_to, push_revert_if_online}
use sakura_monitoring.Transfer.Revert.{
  RevertEnv, terminated, stored, give_back, guarded_update, revert_tx, heal, register_recovery,
  roll_back, revert_transition, cancel,
}
use sakura_monitoring.Transfer.Verify.{promoted, mark_verified, acked}
use sakura_monitoring.Transfer.Auth.{
  AuthEnv, admitted, tolerated, authorize_server, authorize_agent_for_uuid, check,
}
use sakura_monitoring.Transfer.Steps.{Step, Reach, initiates, cancels, here, next}
use sakura_monitoring.Transfer.Invariant.Consistent.{Inv, owner_of}
use sakura_monitoring.Transfer.Invariant.Begin.{initiate_exclusive-Inv}
use sakura_monitoring.Transfer.Invariant.Reaching.{Reach-Inv, Reach-one_pending}
use sakura_monitoring.Transfer.Rollback.{IsCalm, IsRolledBack}
use sakura_monitoring.Transfer.Outcome.{
  revert_transition-IsRolledBack, revert_transition-settled, revert_transition-error,
  revert_transition-rival,
}
use sakura_monitoring.Transfer.Opening.{
  IsOpened, initiate_exclusive-error, initiate_exclusive-IsOpened, cancel-initiate_exclusive,
}
use sakura_monitoring.Transfer.Admission.{check-admitted}
use sakura_monitoring.Transfer.Credentials.{
  IsOwnSecret, authorize_agent_for_uuid-pending, mark_verified-promotes,
}
use sakura_monitoring.Transfer.Restart.{
  RestartEnv, Candidate, candidates, select, is_cached, index_pending, place_oldest, oldest_first,
  index_reverted, place_newest, newest_first, is_eligible, index_verified, forward_candidates,
  revert_candidates, restart,
}
use sakura_monitoring.Transfer.Restart.Pending.{restart-pending}
use sakura_monitoring.Transfer.Restart.Recovery.{IsReopened, restart-IsReopened}
use sakura_monitoring.Transfer.Restart.Newest.{IsNewest, restart-IsNewest}
use sakura_monitoring.Transfer.Reconnect.{check-check}

abbrev pub semver : Semver
semver = record { is_valid = λ v. true; is_at_least = λ v least. false }

abbrev pub luck : InitiateEnv
luck = record {
  handshake = some "new";
  revert_handshake = some "old";
  create_fails = false;
  owner_fails = false;
  commit_fails = false;
}

abbrev pub calm : RevertEnv
calm = record {
  first_fails = false;
  read_fails = false;
  cas_fails = false;
  reread_fails = false;
  owner_fails = false;
  commit_fails = false;
  rival = none;
  taken = true;
}

abbrev pub machine : ℕ → Server
machine user = record { user_id = user; uuid = "u"; task_stream = some 3; host_version = none }

-- Server 1 belongs to user 10.
abbrev pub start : World
start = record {
  transfers = [];
  next_id = 5;
  db_owner = (1, 10) ∷ [];
  servers = (1, machine 10) ∷ [];
  uuid_to_id = ("u", 1) ∷ [];
  pending = [];
  revert_deliveries = [];
  terminal_secret_recovery = [];
  verified_handshakes = [];
  control_epoch = [];
  sent = [];
  revoked = [];
  events = [];
}

abbrev pub moving : ServerTransfer
moving = record {
  id = 5;
  server_id = 1;
  from_user_id = 10;
  to_user_id = 20;
  initiator_id = 10;
  status = pending;
  last_error = "";
  acked_at = none;
  handshake_secret = "new";
  revert_handshake_secret = "old";
  created_at = 100;
  updated_at = 100;
}

-- Server 1 is on its way to user 20.
abbrev pub waiting : World
waiting = record start {
  transfers = (5, moving) ∷ [];
  next_id = 6;
  db_owner = (1, 20) ∷ [];
  servers = (1, machine 20) ∷ [];
  pending = (1, moving) ∷ [];
  control_epoch = (1, 1) ∷ [];
  revoked = 1 ∷ [];
  events = moving ∷ [];
}

pub opened : initiate_exclusive semver luck 1 10 20 10 100 start ≡ (ok moving, waiting)
unfolding initiate_exclusive agent_supports initiate claim_owner register publish own update_owner
    get insert delete
opened = refl

pub start-Inv : Inv start
unfolding get
start-Inv = record {
  row_id = λ i t g. ground arith;
  slot_row = λ s t g. ground arith;
  row_slot = λ i t g p. ground arith;
  db_owner = λ s u t g o. ground arith;
  cached_owner = λ s u t g o. ground arith;
  distinct = tt;
  rows_distinct = tt;
}

pub waiting-Inv : Inv waiting
waiting-Inv =
    subst (λ r. Inv r.1) opened (initiate_exclusive-Inv start start-Inv semver luck 1 10 20 10 100)

-- A second initiation, by the new owner, is refused.
busy : initiate_exclusive semver luck 1 20 30 20 101 waiting ≡ (err already_transferring, waiting)
unfolding initiate_exclusive agent_supports get
busy = refl

initiate_exclusive-IsOpened_example :
    IsOpened 1 10 20 moving start (initiate_exclusive semver luck 1 10 20 10 100 start).1
initiate_exclusive-IsOpened_example =
    initiate_exclusive-IsOpened semver luck 1 10 20 10 100 moving start (ap (λ r. r.0) opened)

pub calm-IsCalm : IsCalm calm
calm-IsCalm = record {
  first = refl;
  read = refl;
  cas = refl;
  owner = refl;
  commit = refl;
  alone = refl;
}

cancel-initiate_exclusive_example :
    let r = cancel calm 5 200 (initiate_exclusive semver luck 1 10 20 10 100 start).1 in
    (r.0 ≡ ok (some (terminated cancelled "" 200 moving)))
    × (get 1 r.1.db_owner ≡ some 10)
    × ((u : ℕ) → owner_of (get 1 r.1.servers) ≡ some u → u ≡ 10)
    × (get 1 r.1.pending ≡ none)
    × (r.1.verified_handshakes ≡ [])
cancel-initiate_exclusive_example =
    cancel-initiate_exclusive semver luck calm 1 10 20 10 100 200 moving start start-Inv calm-IsCalm
      (ap (λ r. r.0) opened)

-- The cancelled transfer, as it is stored.
abbrev pub over : ServerTransfer
over = stored cancelled "" 200 moving

abbrev pub returned : World
returned = record waiting {
  transfers = (5, over) ∷ [];
  db_owner = (1, 10) ∷ [];
  servers = (1, machine 10) ∷ [];
  pending = [];
  revert_deliveries = (1, over) ∷ [];
  terminal_secret_recovery = (1, over) ∷ [];
  sent = record { server = 1; id = 5; client_secret = "old" } ∷ [];
  revoked = 1 ∷ 1 ∷ [];
  events = over ∷ moving ∷ [];
}

-- The rollback sends the old credential to the agent, which is online.
cancelled_run : cancel calm 5 200 waiting ≡ (ok (some over), returned)
unfolding revert_transition revert_tx guarded_update give_back roll_back heal register_recovery
    push_revert_if_online push_revert_to send_apply_config live_delivery prune_delivery own
    update_owner delete_same get insert delete
cancelled_run = refl

pub path : Reach start returned
path =
    next (next here (subst (λ r. Step start r.1) opened (initiates semver luck 1 10 20 10 100)))
      (subst (λ r. Step waiting r.1) cancelled_run (cancels calm 5 200 tt))
