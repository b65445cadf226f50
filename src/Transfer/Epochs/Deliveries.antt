-- ===== src/Transfer/Epochs/Deliveries.antt =====
-- Deliveries and deletions change no control epoch.
use sakura_monitoring.Base.{
  ℕ, inl, inr, refl, ◌∙◌, Bool, true, false, Option, none, some, List, [], ◌∷◌, nat_eq, string_eq,
  arith, Option-cases,
}
use sakura_monitoring.Base.Map.{get}
use sakura_monitoring.Transfer.Types.{World, ServerTransfer, failed}
use sakura_monitoring.Transfer.Lookup.{
  lookup_pending, lookup_revert_delivery, live_delivery, prune_delivery,
}
use sakura_monitoring.Transfer.Initiate.{Semver}
use sakura_monitoring.Transfer.Revert.{RevertEnv}
use sakura_monitoring.Transfer.Deliver.{
  too_old_message, push_handshake, push_to, push_if_online, on_agent_reconnect, redeliver,
}
use sakura_monitoring.Transfer.Deleted.{
  cancel_servers, cancel_rows, list_pending, involves, drop_recovery_of, drop_recovery,
  on_servers_deleted, on_users_deleted, drop_terminated, revoke_all, broadcast_all,
}
use sakura_monitoring.Transfer.Epochs.{
  HasSameEpochs, send_apply_config-HasSameEpochs, push_revert_if_online-HasSameEpochs,
  revert_transition-HasSameEpochs,
}

pub push_if_online-HasSameEpochs :
    (semver : Semver) (env : RevertEnv) (now : ℕ) (t : ServerTransfer) (w : World)
    → HasSameEpochs w (push_if_online semver env now t w)
unfolding push_if_online push_to push_handshake
push_if_online-HasSameEpochs semver env now t w = elim (Option-cases (get t.server_id w.servers)) [
  | inl e ↦ rw (e, push_if_online) refl
  | inr (s, e) ↦
      let failed' = revert_transition-HasSameEpochs env failed too_old_message t.id now w in
      let sent = send_apply_config-HasSameEpochs env.taken t t.handshake_secret s w in
      rw (e, push_if_online)
        (elim (Option-cases s.task_stream) [
          | inl f ↦ simp f refl
          | inr (stream, f) ↦ simp f (ground (arith, failed', sent))
        ])
]

pub on_agent_reconnect-HasSameEpochs :
    (semver : Semver) (env : RevertEnv) (server now : ℕ) (w : World)
    → HasSameEpochs w (on_agent_reconnect semver env server now w)
unfolding on_agent_reconnect live_delivery prune_delivery
on_agent_reconnect-HasSameEpochs semver env server now w =
    elim (Option-cases (lookup_pending server w)) [
      | inr (t, e) ↦ rw (e, on_agent_reconnect) (push_if_online-HasSameEpochs semver env now t w)
      | inl e ↦ rw (e, on_agent_reconnect) (redelivered (lookup_revert_delivery now server w) refl)
    ]
  where
    redelivered :
        (o : Option ServerTransfer × World)
        → HasSameEpochs w o.1
        → HasSameEpochs w (redeliver env now o)
    redelivered (none, v) h = h
    redelivered (some t, v) h = push_revert_if_online-HasSameEpochs env.taken now t v ∙ h

drop_terminated-HasSameEpochs :
    (ts : List ServerTransfer) (w : World) → HasSameEpochs w (drop_terminated ts w)
unfolding drop_terminated
drop_terminated-HasSameEpochs [] w = refl
drop_terminated-HasSameEpochs (t ∷ ts) w = drop_terminated-HasSameEpochs ts _

revoke_all-HasSameEpochs : (ss : List ℕ) (w : World) → HasSameEpochs w (revoke_all ss w)
unfolding revoke_all
revoke_all-HasSameEpochs [] w = refl
revoke_all-HasSameEpochs (s ∷ ss) w = revoke_all-HasSameEpochs ss _

broadcast_all-HasSameEpochs :
    (ts : List ServerTransfer) (w : World) → HasSameEpochs w (broadcast_all ts w)
unfolding broadcast_all
broadcast_all-HasSameEpochs [] w = refl
broadcast_all-HasSameEpochs (t ∷ ts) w = broadcast_all-HasSameEpochs ts _

pub on_servers_deleted-HasSameEpochs :
    (lists casts : ℕ → Bool) (now : ℕ) (servers : List ℕ) (w : World)
    → HasSameEpochs w (on_servers_deleted lists casts now servers w)
unfolding on_servers_deleted
on_servers_deleted-HasSameEpochs lists casts now servers w =
    let c = cancel_servers lists casts now servers w.transfers in
    let w1 : World = record w { transfers = c.0 } in
    let w2 = drop_terminated c.1 w1 in
    let w3 : World = record w2 {
      terminal_secret_recovery = drop_recovery_of servers w2.terminal_secret_recovery;
    } in
    broadcast_all-HasSameEpochs c.1 (revoke_all servers w3)
    ∙ revoke_all-HasSameEpochs servers w3
    ∙ drop_terminated-HasSameEpochs c.1 w1

pub on_users_deleted-HasSameEpochs :
    (list_fails : Bool) (casts : ℕ → Bool) (now : ℕ) (users : List ℕ) (w : World)
    → HasSameEpochs w (on_users_deleted list_fails casts now users w)
unfolding on_users_deleted
on_users_deleted-HasSameEpochs true casts now users w = refl
on_users_deleted-HasSameEpochs false casts now users w =
    let c =
      cancel_rows casts "user deleted" now (list_pending (involves users) w.transfers)
        w.transfers in
    let w1 : World = record w { transfers = c.0 } in
    let w2 = drop_terminated c.1 w1 in
    let w3 : World = record w2 {
      terminal_secret_recovery = drop_recovery c.1 w2.terminal_secret_recovery;
    } in
    broadcast_all-HasSameEpochs c.1 w3 ∙ drop_terminated-HasSameEpochs c.1 w1
