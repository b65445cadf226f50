-- ===== src/Transfer/Steps.antt =====
-- The operations of Initiate, Revert, Verify, Deliver, Deleted and Auth as a step relation, within one run
-- of the process: any caller, in any order, with any answers of the environment. Restarts and the removal
-- of server rows are in Lifetimes; the broker has steps of its own, and other writes of server rows are in
-- none.
use sakura_monitoring.Base.{ℕ, ◌≡◌, Bool, true, Option, none, some, String, List, nat_eq}
use sakura_monitoring.Base.Map.{get}
use sakura_monitoring.Transfer.Types.{World, ServerTransfer, Status, is_terminal}
use sakura_monitoring.Transfer.Initiate.{Semver, InitiateEnv, initiate_exclusive}
use sakura_monitoring.Transfer.Revert.{RevertEnv, mark_failed, mark_timeout, cancel, sweep_timeouts}
use sakura_monitoring.Transfer.Verify.{mark_verified, mark_revert_delivered}
use sakura_monitoring.Transfer.Deliver.{push_if_online, on_agent_reconnect, retry}
use sakura_monitoring.Transfer.Deleted.{on_servers_deleted, on_users_deleted}
use sakura_monitoring.Transfer.Auth.{AuthEnv, check}

-- A concurrent caller that wins the guarded update settles the row.
abbrev pub SettledRival : Option Status → Type 0
SettledRival none = Unit {0}
SettledRival (some status) = is_terminal status ≡ true

-- Registration of an agent makes a row with a new id, which no transfer waits for.
abbrev pub FreshServer : Option ℕ → World → Type 0
FreshServer none w = Unit {0}
FreshServer (some id) w = get id w.pending ≡ none

pub data Step (w : World) : World → Type 0 where
  initiates :
      (semver : Semver) (env : InitiateEnv) (server from to initiator now : ℕ)
      → Step w (initiate_exclusive semver env server from to initiator now w).1
  cancels :
      (env : RevertEnv) (transfer now : ℕ)
      → SettledRival env.rival
      → Step w (cancel env transfer now w).1
  fails :
      (env : RevertEnv) (reason : String) (transfer now : ℕ)
      → SettledRival env.rival
      → Step w (mark_failed env reason transfer now w).1
  times_out :
      (env : RevertEnv) (transfer now : ℕ)
      → SettledRival env.rival
      → Step w (mark_timeout env transfer now w).1
  sweeps :
      (env : ℕ → RevertEnv) (now : ℕ)
      → ((i : ℕ) → SettledRival (env i).rival)
      → Step w (sweep_timeouts env now w)
  verifies :
      (fails : Bool) (server transfer now : ℕ)
      → Step w (mark_verified fails server transfer now w).1
  delivers :
      (fails : Bool) (server transfer now : ℕ)
      → Step w (mark_revert_delivered fails server transfer now w).0
  pushes :
      (semver : Semver) (env : RevertEnv) (now : ℕ) (t : ServerTransfer)
      → SettledRival env.rival
      → Step w (push_if_online semver env now t w)
  reconnects :
      (semver : Semver) (env : RevertEnv) (server now : ℕ)
      → SettledRival env.rival
      → Step w (on_agent_reconnect semver env server now w)
  retries :
      (semver : Semver) (ienv : InitiateEnv) (env : RevertEnv) (read_fails target_exists : Bool)
      (prev : ServerTransfer) (initiator now : ℕ)
      → SettledRival env.rival
      → Step w (retry semver ienv env read_fails target_exists prev initiator now w).1
  deletes_servers :
      (lists casts : ℕ → Bool) (now : ℕ) (servers : List ℕ)
      → Step w (on_servers_deleted lists casts now servers w)
  deletes_users :
      (list_fails : Bool) (casts : ℕ → Bool) (now : ℕ) (users : List ℕ)
      → Step w (on_users_deleted list_fails casts now users w)
  authenticates :
      (env : AuthEnv) (secret uuid : String)
      → FreshServer env.created w
      → Step w (check env secret uuid w).world

pub data Reach (w : World) : World → Type 0 where
  here : Reach w w
  next : {u v : World} → Reach w u → Step u v → Reach w v
