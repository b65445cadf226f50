-- ===== src/Control.antt =====
-- Who may operate a server while its ownership or its credentials change:
-- upstream/nezha/service/singleton/server_control.go. The locks are within one step, so `initiating`, which is set
-- within a step only, is not part of the state.
pub mod Leases
mod Tests
use sakura_monitoring.Base.{
  ℕ, Bool, true, false, not, ◌&&◌, ◌||◌, Option, none, some, ◌==◌, if◌then◌else◌, nat_eq,
}
use sakura_monitoring.Base.Map.{get}
use sakura_monitoring.Transfer.Types.{World, Server, ServerTransfer}
use sakura_monitoring.Transfer.Epochs.Growth.{epoch_of}

abbrev pub is_there : Option ServerTransfer → Bool
is_there none = false
is_there (some t) = true

-- `ServerControlTransitioning`
unfoldable pub server_control_transitioning : ℕ → World → Bool
server_control_transitioning server w =
    is_there (get server w.pending)
    || is_there (get server w.terminal_secret_recovery)
    || is_there (get server w.revert_deliveries)

-- `BeginServerControl`: the server that the lease is for
unfoldable pub begin_server_control : ℕ → ℕ → Bool → World → Option Server
unfolding server_control_transitioning
begin_server_control server user admin w = elim (get server w.servers) [
  | none ↦ none
  | some s ↦
      if not admin && (not (s.user_id == user) || server_control_transitioning server w)
      then none
      else some s
]

-- `ServerControlIdentity`
pub record ServerControlIdentity : Type 0 where
  pub user_id : ℕ
  pub admin : Bool

-- What the context of a call carries of the two keys
pub record ControlContext : Type 0 where
  pub identity : Option ServerControlIdentity
  pub bound_epoch : Option ℕ

pub data ControlError : Type 0 where
  access_denied in_progress ownership_changed : ControlError

abbrev pub is_stale : Option ℕ → ℕ → Bool
is_stale none current = false
is_stale (some bound) current = not (bound == current)

-- `BeginServerControlFromContext`: none where the lease is given
unfoldable pub begin_server_control_from_context : ControlContext → ℕ → World → Option ControlError
unfolding begin_server_control server_control_transitioning
begin_server_control_from_context c server w = elim c.identity [
  | none ↦ if server_control_transitioning server w then some in_progress else none
  | some i ↦ elim (begin_server_control server i.user_id i.admin w) [
    | none ↦ some access_denied
    | some s ↦ if is_stale c.bound_epoch (epoch_of server w) then some ownership_changed else none
  ]
]
