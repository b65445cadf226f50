-- ===== src/Transfer/Invariant/Reaching.antt =====
-- The agreement holds in every state that steps reach.
use sakura_monitoring.Base.{ℕ, ◌≡◌, refl, some, arith, nat_eq}
use sakura_monitoring.Base.Map.{get}
use sakura_monitoring.Transfer.Types.{World, ServerTransfer, pending}
use sakura_monitoring.Transfer.Steps.{
  Step, initiates, cancels, fails, times_out, sweeps, verifies, delivers, pushes, reconnects,
  retries, deletes_servers, deletes_users, authenticates, Reach, here, next,
}
use sakura_monitoring.Transfer.Invariant.Consistent.{Inv}
use sakura_monitoring.Transfer.Invariant.Begin.{initiate_exclusive-Inv}
use sakura_monitoring.Transfer.Invariant.End.{revert_transition-Inv}
use sakura_monitoring.Transfer.Invariant.Verifying.{mark_verified-Inv, mark_revert_delivered-Inv}
use sakura_monitoring.Transfer.Invariant.Settling.{on_servers_deleted-Inv, on_users_deleted-Inv}
use sakura_monitoring.Transfer.Invariant.Delivery.{
  push_if_online-Inv, on_agent_reconnect-Inv, retry-Inv, sweep_timeouts-Inv,
}
use sakura_monitoring.Transfer.Invariant.Authenticating.{check-Inv}

pub Step-Inv : {w v : World} → Step w v → Inv w → Inv v
Step-Inv {w} (initiates semver env server from to initiator now) h =
    initiate_exclusive-Inv w h semver env server from to initiator now
Step-Inv {w} (cancels env transfer now rival) h =
    revert_transition-Inv env _ "" transfer now w rival refl h
Step-Inv {w} (fails env reason transfer now rival) h =
    revert_transition-Inv env _ reason transfer now w rival refl h
Step-Inv {w} (times_out env transfer now rival) h =
    revert_transition-Inv env _ "" transfer now w rival refl h
Step-Inv {w} (sweeps env now rival) h = sweep_timeouts-Inv env now w rival h
Step-Inv {w} (verifies f server transfer now) h = mark_verified-Inv f server transfer now w h
Step-Inv {w} (delivers f server transfer now) h =
    mark_revert_delivered-Inv f server transfer now w h
Step-Inv {w} (pushes semver env now t rival) h = push_if_online-Inv env now rival semver t w h
Step-Inv {w} (reconnects semver env server now rival) h =
    on_agent_reconnect-Inv env now rival semver server w h
Step-Inv {w} (retries semver ienv env r e prev initiator now rival) h =
    retry-Inv env now rival semver ienv r e prev initiator w h
Step-Inv {w} (deletes_servers lists casts now servers) h =
    on_servers_deleted-Inv lists casts now servers w h
Step-Inv {w} (deletes_users f casts now users) h = on_users_deleted-Inv f casts now users w h
Step-Inv {w} (authenticates env secret uuid fresh) h = check-Inv env secret uuid w fresh h

-- From a state in which the database and the pending index agree, every state that is reached by any
-- list of steps is one.
pub Reach-Inv : {w v : World} → Inv w → Reach w v → Inv v
Reach-Inv h here = h
Reach-Inv h (next r s) = Step-Inv s (Reach-Inv h r)

-- In every state that is reached from one in which the database and the pending index agree, two
-- pending rows of one server are one row.
pub Reach-one_pending :
    {w v : World} (i j : ℕ) (t u : ServerTransfer)
    → Inv w
    → Reach w v
    → get i v.transfers ≡ some t
    → get j v.transfers ≡ some u
    → t.status ≡ pending
    → u.status ≡ pending
    → t.server_id ≡ u.server_id
    → i ≡ j
Reach-one_pending {v = v} i j t u h r gt gu pt pu same =
    let k = Reach-Inv h r in
    ground (arith, k.row_slot i t gt pt, k.row_slot j u gu pu, k.row_id i t gt, k.row_id j u gu)
