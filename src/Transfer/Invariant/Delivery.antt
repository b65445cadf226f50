-- ===== src/Transfer/Invariant/Delivery.antt =====
-- Deliveries, retries, the sweep and the authentication of an agent keep the agreement of the database with the
-- pending index.
use sakura_monitoring.Base.{
  ℕ, ◌≡◌, refl, Bool, true, false, Option, none, some, List, [], ◌∷◌, arith, ◌==◌, str_eq, nat_eq,
  string_eq, Option-cases, Bool-cases, inl, inr,
}
use sakura_monitoring.Base.Map.{get}
use sakura_monitoring.Transfer.Types.{
  World, Server, ServerTransfer, Result, ok, err, failed, is_terminal,
}
use sakura_monitoring.Transfer.Lookup.{lookup_pending, live_delivery, prune_delivery}
use sakura_monitoring.Transfer.Initiate.{Semver, InitiateEnv, agent_supports}
use sakura_monitoring.Transfer.Revert.{
  RevertEnv, mark_timeout, time_out_all, sweep_timeouts, overdue,
}
use sakura_monitoring.Transfer.Deliver.{
  too_old_message, is_current, push_handshake, push_to, push_if_online, redeliver,
  on_agent_reconnect, then_push, retry_to, retry,
}
use sakura_monitoring.Transfer.Steps.{SettledRival}
use sakura_monitoring.Transfer.Invariant.Consistent.{Inv}
use sakura_monitoring.Transfer.Invariant.Begin.{initiate_exclusive-Inv}
use sakura_monitoring.Transfer.Invariant.End.{
  send_apply_config-Inv, push_revert_if_online-Inv, revert_transition-Inv,
}

module _ (env : RevertEnv) (now : ℕ) (rival : SettledRival env.rival) where
  push_handshake-Inv :
      (t : ServerTransfer) (s : Server) (w : World)
      → get t.server_id w.servers ≡ some s
      → Inv w
      → Inv (push_handshake env.taken t s w)
  unfolding push_handshake
  push_handshake-Inv t s w found h =
      elim (Bool-cases (is_current t (lookup_pending t.server_id w))) [
        | inr e ↦ rw (e, push_handshake) h
        | inl e ↦
            rw (e, push_handshake)
              (elim (Bool-cases (str_eq t.handshake_secret "")) [
                | inl b ↦ simp b h
                | inr b ↦ simp b (send_apply_config-Inv env.taken t t.handshake_secret s w found h)
              ])
      ]

  pub push_if_online-Inv :
      (semver : Semver) (t : ServerTransfer) (w : World)
      → Inv w
      → Inv (push_if_online semver env now t w)
  unfolding push_if_online push_to
  push_if_online-Inv semver t w h = elim (Option-cases (get t.server_id w.servers)) [
    | inl e ↦ rw (e, push_if_online) h
    | inr (s, found) ↦
        rw (found, push_if_online)
          (elim (Option-cases s.task_stream) [
            | inl e ↦ simp e h
            | inr (stream, e) ↦ simp e (elim (Bool-cases (agent_supports semver s)) [
              | inl a ↦ simp a (push_handshake-Inv t s w found h)
              | inr a ↦
                  simp a (revert_transition-Inv env failed too_old_message t.id now w rival refl h)
            ])
          ])
  ]

  redeliver-Inv : (o : Option ServerTransfer) (w : World) → Inv w → Inv (redeliver env now (o, w))
  redeliver-Inv none w h = h
  redeliver-Inv (some t) w h = push_revert_if_online-Inv env.taken now t w h

  pub on_agent_reconnect-Inv :
      (semver : Semver) (server : ℕ) (w : World)
      → Inv w
      → Inv (on_agent_reconnect semver env server now w)
  unfolding on_agent_reconnect
  on_agent_reconnect-Inv semver server w h = elim (Option-cases (get server w.pending)) [
    | inl e ↦
        rw (e, on_agent_reconnect)
          (redeliver-Inv (live_delivery now server w.revert_deliveries)
            (record w { revert_deliveries = prune_delivery now server w.revert_deliveries }) h)
    | inr (t, e) ↦ rw (e, on_agent_reconnect) (push_if_online-Inv semver t w h)
  ]

  then_push-Inv :
      (semver : Semver) (r : Result ServerTransfer) (w : World)
      → Inv w
      → Inv (then_push semver env now (r, w)).1
  then_push-Inv semver (err e) w h = h
  then_push-Inv semver (ok t) w h = push_if_online-Inv semver t w h

  pub retry-Inv :
      (semver : Semver) (ienv : InitiateEnv) (read_fails target_exists : Bool)
      (prev : ServerTransfer) (initiator : ℕ) (w : World)
      → Inv w
      → Inv (retry semver ienv env read_fails target_exists prev initiator now w).1
  unfolding retry retry_to
  retry-Inv semver ienv read_fails false prev initiator w h = ground arith
  retry-Inv semver ienv true true prev initiator w h = ground arith
  retry-Inv semver ienv false true prev initiator w h =
      elim (Bool-cases (is_terminal prev.status)) [
        | inr e ↦ rw (e, retry) h
        | inl e ↦
            rw (e, retry)
              (elim (Option-cases (get prev.server_id w.db_owner)) [
                | inl m ↦ rw m h
                | inr (owner, m) ↦ rw m (elim (Bool-cases (owner == prev.to_user_id)) [
                  | inl s ↦ rw s h
                  | inr s ↦ rw s (
                      then_push-Inv semver _ _ (
                        initiate_exclusive-Inv w h semver ienv prev.server_id owner prev.to_user_id
                          initiator now))
                ])
              ])
      ]

time_out_all-Inv :
    (env : ℕ → RevertEnv) (now : ℕ) (ids : List ℕ) (w : World)
    → ((i : ℕ) → SettledRival (env i).rival)
    → Inv w
    → Inv (time_out_all env now ids w)
unfolding time_out_all
time_out_all-Inv env now [] w rival h = h
time_out_all-Inv env now (id ∷ ids) w rival h =
    time_out_all-Inv env now ids (mark_timeout (env id) id now w).1 rival
      (revert_transition-Inv (env id) _ "" id now w (rival id) refl h)

pub sweep_timeouts-Inv :
    (env : ℕ → RevertEnv) (now : ℕ) (w : World)
    → ((i : ℕ) → SettledRival (env i).rival)
    → Inv w
    → Inv (sweep_timeouts env now w)
unfolding sweep_timeouts
sweep_timeouts-Inv env now w rival h = time_out_all-Inv env now (overdue now w.pending) w rival h
