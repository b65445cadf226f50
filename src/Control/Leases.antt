-- ===== src/Control/Leases.antt =====
-- To whom a lease on a server is given.
use sakura_monitoring.Base.{
  ℕ, ◌≡◌, ◌≢◌, inl, inr, refl, ap, ◌∙◌, false, Option, none, some, ◌==◌, nat_eq, arith,
  Option-cases,
}
use sakura_monitoring.Base.Map.{get}
use sakura_monitoring.Transfer.Types.{World, Server, ServerTransfer, ok, pending}
use sakura_monitoring.Transfer.Initiate.{Semver, InitiateEnv, initiate_exclusive}
use sakura_monitoring.Transfer.Steps.{Reach}
use sakura_monitoring.Transfer.Invariant.Consistent.{Inv}
use sakura_monitoring.Transfer.Epochs.Growth.{
  epoch_of, Reach-NoneFalls, initiate_exclusive-epoch_of,
}
use sakura_monitoring.Control.{
  is_there, server_control_transitioning, begin_server_control, ServerControlIdentity,
  begin_server_control_from_context,
}

-- What a lease that is given to a user who is no administrator says of the state.
pub record IsSettledOwner (server user : ℕ) (s : Server) (w : World) : Type 0 where
  pub cached : get server w.servers ≡ some s
  pub owner : s.user_id ≡ user
  pub no_pending :
      (i : ℕ) (t : ServerTransfer)
      → get i w.transfers ≡ some t
      → t.server_id ≡ server
      → t.status ≢ pending
  pub no_recovery : get server w.terminal_secret_recovery ≡ none
  pub no_delivery : get server w.revert_deliveries ≡ none

is_there_iff : (o : Option ServerTransfer) → is_there o ≡ false → o ≡ none
is_there_iff none e = refl
is_there_iff (some t) e = cc

-- In a state in which the database and the pending index agree, a lease on a server is given to a user who is no administrator only
-- where the cache has the server as this user's, the database has no pending transfer of it, and no rollback
-- of it waits for its delivery or its recovery.
pub begin_server_control-IsSettledOwner :
    (server user : ℕ) (s : Server) (w : World)
    → Inv w
    → begin_server_control server user false w ≡ some s
    → IsSettledOwner server user s w
unfolding begin_server_control server_control_transitioning
begin_server_control-IsSettledOwner server user s w h e =
    elim (Option-cases (get server w.servers)) [
      | inl f ↦ ground (arith, e, f, begin_server_control)
      | inr (t, f) ↦
          let same : t ≡ s = ground (arith, e, f, begin_server_control) in
          let free : get server w.pending ≡ none =
            is_there_iff (get server w.pending) (ground (arith, e, f, begin_server_control)) in
          record {
            cached = f ∙ ap some same;
            owner = ground (arith, e, f, same, begin_server_control);
            no_pending = λ i u g at p. ground (arith, h.row_slot i u g p, at, free);
            no_recovery =
                is_there_iff (get server w.terminal_secret_recovery)
                  (ground (arith, e, f, begin_server_control));
            no_delivery =
                is_there_iff (get server w.revert_deliveries)
                  (ground (arith, e, f, begin_server_control));
          }
    ]

-- After a transfer of the server was initiated, a call that is bound to an epoch from before gets no lease on it, in any state that is
-- reached later, whoever makes it.
pub begin_server_control_from_context-initiate_exclusive :
    (semver : Semver) (env : InitiateEnv) (server from to initiator now : ℕ) (t : ServerTransfer)
    (i : ServerControlIdentity) (w u v : World)
    → Reach w u
    → (initiate_exclusive semver env server from to initiator now u).0 ≡ ok t
    → Reach (initiate_exclusive semver env server from to initiator now u).1 v
    → begin_server_control_from_context
        (record { identity = some i; bound_epoch = some (epoch_of server w) })
        server
        v
      ≢ none
unfolding begin_server_control_from_context
begin_server_control_from_context-initiate_exclusive semver env server from to initiator now t i w u
      v before e after =
    let x = Reach-NoneFalls before server in
    let y = initiate_exclusive-epoch_of semver env server from to initiator now t u e in
    let z = Reach-NoneFalls after server in
    let stale : (epoch_of server w == epoch_of server v) ≡ false = ground (arith, x, y, z) in
    λ n. ground (arith, n, stale, begin_server_control_from_context)
