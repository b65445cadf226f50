-- ===== src/Transfer/Epochs.antt =====
-- No operation but the publication of a transfer changes the control epochs.
pub mod Deliveries
pub mod Authentication
pub mod Growth
use sakura_monitoring.Base.{
  ℕ, ◌≡◌, ◌⊎◌, inl, inr, refl, sym, ap, ◌∙◌, Bool, true, false, ◌&&◌, Option, none, some, List, [],
  ◌∷◌, String, ◌==◌, str_eq, if◌then◌else◌, nat_eq, string_eq, arith, Bool-cases, Option-cases,
}
use sakura_monitoring.Base.Map.{Map, get, insert, delete}
use sakura_monitoring.Transfer.Types.{
  World, Server, ServerTransfer, Status, timed_out, Result, ok, err, db_error, is_terminal,
  update_owner, delete_same, set_user_id, broadcast, revoke_streams,
}
use sakura_monitoring.Transfer.Lookup.{
  lookup_revert_delivery, live_delivery, prune_delivery, lookup_pending,
}
use sakura_monitoring.Transfer.Initiate.{Semver, agent_supports}
use sakura_monitoring.Transfer.Push.{
  send_apply_config, send_if_same, push_revert_to, push_revert_if_online,
}
use sakura_monitoring.Transfer.Revert.{
  RevertEnv, TxDone, mark_timeout, give_back, guarded_update, revert_tx, heal, register_recovery,
  roll_back, finish, revert_transition, time_out_all, overdue, sweep_timeouts,
}
use sakura_monitoring.Transfer.Verify.{
  promote, verify_result, settle_verified, mark_verified, promote_revert, mark_revert_delivered,
}

abbrev pub HasSameEpochs : World → World → Type 0
HasSameEpochs w v = v.control_epoch ≡ w.control_epoch

pub send_apply_config-HasSameEpochs :
    (taken : Bool) (t : ServerTransfer) (secret : String) (s : Server) (w : World)
    → HasSameEpochs w (send_apply_config taken t secret s w)
unfolding send_apply_config
send_apply_config-HasSameEpochs taken t secret s w = ground arith

pub lookup_revert_delivery-HasSameEpochs :
    (now server : ℕ) (w : World) → HasSameEpochs w (lookup_revert_delivery now server w).1
unfolding live_delivery prune_delivery
lookup_revert_delivery-HasSameEpochs now server w = ground arith

pub push_revert_if_online-HasSameEpochs :
    (taken : Bool) (now : ℕ) (t : ServerTransfer) (w : World)
    → HasSameEpochs w (push_revert_if_online taken now t w)
unfolding push_revert_if_online push_revert_to live_delivery prune_delivery send_apply_config
push_revert_if_online-HasSameEpochs taken now t w = ground arith

roll_back-HasSameEpochs :
    (env : RevertEnv) (now : ℕ) (t : ServerTransfer) (w : World)
    → HasSameEpochs w (roll_back env now t w)
unfolding roll_back heal register_recovery
roll_back-HasSameEpochs env now t w = push_revert_if_online-HasSameEpochs env.taken now t (
    broadcast t (
      revoke_streams t.server_id
        (register_recovery t (heal t (set_user_id t.server_id t.from_user_id w)))))

pub mark_verified-HasSameEpochs :
    (fails : Bool) (server transfer now : ℕ) (w : World)
    → HasSameEpochs w (mark_verified fails server transfer now w).1
unfolding mark_verified settle_verified promote
mark_verified-HasSameEpochs fails server transfer now w = ground arith

pub mark_revert_delivered-HasSameEpochs :
    (fails : Bool) (server transfer now : ℕ) (w : World)
    → HasSameEpochs w (mark_revert_delivered fails server transfer now w).0
unfolding mark_revert_delivered promote_revert
mark_revert_delivered-HasSameEpochs fails server transfer now w = ground arith

revert_tx-HasSameEpochs :
    (env : RevertEnv) (status : Status) (reason : String) (now : ℕ) (t : ServerTransfer) (w : World)
    → (done : TxDone) → revert_tx env status reason now t w ≡ ok done
    → HasSameEpochs w done.world
unfolding revert_tx guarded_update give_back
revert_tx-HasSameEpochs env status reason now t w done e = ground arith

finished :
    (env : RevertEnv) (now : ℕ) (w : World) (r : Result TxDone)
    → ((done : TxDone) → r ≡ ok done → HasSameEpochs w done.world)
    → HasSameEpochs w (finish env now w r).1
unfolding heal
finished env now w (err e) h = refl
finished env now w (ok done) h = elim (Bool-cases done.transitioned) [
  | inl e ↦ rw e (roll_back-HasSameEpochs env now done.row done.world ∙ h done refl)
  | inr e ↦ rw e (h done refl)
]

pub revert_transition-HasSameEpochs :
    (env : RevertEnv) (status : Status) (reason : String) (transfer now : ℕ) (w : World)
    → HasSameEpochs w (revert_transition env status reason transfer now w).1
unfolding revert_transition heal
revert_transition-HasSameEpochs env status reason transfer now w =
    elim (Bool-cases env.first_fails) [
      | inl e ↦ rw (e, revert_transition) refl
      | inr e ↦ elim (Option-cases (get transfer w.transfers)) [
        | inl f ↦ rw (e, f, revert_transition) refl
        | inr (t, f) ↦
            rw (e, f, revert_transition)
              (finished env now w (revert_tx env status reason now t w)
                (λ done k. revert_tx-HasSameEpochs env status reason now t w done k))
      ]
    ]

pub time_out_all-HasSameEpochs :
    (env : ℕ → RevertEnv) (now : ℕ) (ids : List ℕ) (w : World)
    → HasSameEpochs w (time_out_all env now ids w)
unfolding time_out_all
time_out_all-HasSameEpochs env now [] w = refl
time_out_all-HasSameEpochs env now (id ∷ ids) w =
    time_out_all-HasSameEpochs env now ids (mark_timeout (env id) id now w).1
    ∙ revert_transition-HasSameEpochs (env id) timed_out "" id now w

pub sweep_timeouts-HasSameEpochs :
    (env : ℕ → RevertEnv) (now : ℕ) (w : World) → HasSameEpochs w (sweep_timeouts env now w)
unfolding sweep_timeouts
sweep_timeouts-HasSameEpochs env now w =
    time_out_all-HasSameEpochs env now (overdue now w.pending) w
