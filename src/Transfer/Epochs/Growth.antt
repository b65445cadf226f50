-- ===== src/Transfer/Epochs/Growth.antt =====
-- The control epoch of a server grows with each initiated transfer and never falls.
use sakura_monitoring.Base.{
  ℕ, ◌+◌, ◌≤◌, ◌≡◌, inl, inr, refl, sym, subst, Bool, ◌==◌, ==_iff, nat_eq, string_eq, arith,
  Bool-cases, Option-cases,
}
use sakura_monitoring.Base.Map.{get, get-insert}
use sakura_monitoring.Transfer.Types.{World, ServerTransfer, Result, ok, err, is_terminal}
use sakura_monitoring.Transfer.Initiate.{
  Semver, InitiateEnv, too_old, epoch, claim_owner, initiate, publish, register, settle,
  initiate_exclusive,
}
use sakura_monitoring.Transfer.Lookup.{has_pending}
use sakura_monitoring.Transfer.Revert.{RevertEnv}
use sakura_monitoring.Transfer.Deliver.{push_if_online, then_push, retry_to, retry}
use sakura_monitoring.Transfer.Steps.{
  Step, Reach, initiates, cancels, fails, times_out, sweeps, verifies, delivers, pushes, reconnects,
  retries, deletes_servers, deletes_users, authenticates, here, next,
}
use sakura_monitoring.Transfer.Epochs.{
  HasSameEpochs, mark_verified-HasSameEpochs, mark_revert_delivered-HasSameEpochs,
  revert_transition-HasSameEpochs, sweep_timeouts-HasSameEpochs,
}
use sakura_monitoring.Transfer.Epochs.Authentication.{check-HasSameEpochs}
use sakura_monitoring.Transfer.Epochs.Deliveries.{
  push_if_online-HasSameEpochs, on_agent_reconnect-HasSameEpochs, on_servers_deleted-HasSameEpochs,
  on_users_deleted-HasSameEpochs,
}

-- `controlEpoch[serverID]`
abbrev pub epoch_of : ℕ → World → ℕ
epoch_of server w = epoch (get server w.control_epoch)

abbrev pub NoneFalls : World → World → Type 0
NoneFalls w v = (server : ℕ) → epoch_of server w ≤ epoch_of server v

same-NoneFalls : (w v : World) → HasSameEpochs w v → NoneFalls w v
same-NoneFalls w v e server =
    subst (λ m. epoch_of server w ≤ epoch (get server m)) (sym e) (omega arith)

-- The transfer's server gains one, the others keep theirs.
register-NoneFalls :
    (t : ServerTransfer) (w v : World)
    → v.control_epoch ≡ w.control_epoch
    → NoneFalls w (register t v)
unfolding register publish
register-NoneFalls t w v e server = ground (
  arith,
  e,
  get-insert t.server_id server (epoch (get t.server_id v.control_epoch) + 1) v.control_epoch,
  ==_iff t.server_id server,
)

initiate-HasSameEpochs :
    (env : InitiateEnv) (server from to initiator now : ℕ) (w : World) (t : ServerTransfer)
    (v : World)
    → initiate env server from to initiator now w ≡ ok (t, v)
    → HasSameEpochs w v × (t.server_id ≡ server)
unfolding initiate claim_owner
initiate-HasSameEpochs env server from to initiator now w t v e = ground arith

initiate_exclusive-NoneFalls :
    (semver : Semver) (env : InitiateEnv) (server from to initiator now : ℕ) (w : World)
    → NoneFalls w (initiate_exclusive semver env server from to initiator now w).1
unfolding initiate_exclusive
initiate_exclusive-NoneFalls semver env server from to initiator now w =
    let same : NoneFalls w w = same-NoneFalls w w refl in
    elim (Bool-cases (too_old semver server w)) [
      | inl e ↦ rw e same
      | inr e ↦ rw e (elim (Bool-cases (has_pending server w)) [
        | inl f ↦ rw f same
        | inr f ↦ rw f (
            settled (initiate env server from to initiator now w)
              (λ t v k. (initiate-HasSameEpochs env server from to initiator now w t v k).0))
      ])
    ]
  where
    settled :
        (r : Result (ServerTransfer × World))
        → ((t : ServerTransfer) (v : World) → r ≡ ok (t, v) → HasSameEpochs w v)
        → NoneFalls w (settle w r).1
    settled (err x) h = same-NoneFalls w w refl
    settled (ok (t, v)) h = register-NoneFalls t w v (h t v refl)

retry-NoneFalls :
    (semver : Semver) (ienv : InitiateEnv) (env : RevertEnv) (read_fails target_exists : Bool)
    (prev : ServerTransfer) (initiator now : ℕ) (w : World)
    → NoneFalls w (retry semver ienv env read_fails target_exists prev initiator now w).1
unfolding retry retry_to
retry-NoneFalls semver ienv env read_fails target_exists prev initiator now w =
    elim (Bool-cases (is_terminal prev.status)) [
      | inr e ↦ rw (e, retry) same
      | inl e ↦ elim (Bool-cases read_fails) [
        | inl f ↦ rw (e, f, retry) same
        | inr f ↦ elim (Option-cases (get prev.server_id w.db_owner)) [
          | inl g ↦ rw (e, f, g, retry) same
          | inr (owner, g) ↦ rw (e, f, g, retry) (to_owner owner)
        ]
      ]
    ]
  where
    same : NoneFalls w w
    same = same-NoneFalls w w refl

    pushed :
        (r : Result ServerTransfer × World)
        → NoneFalls w r.1
        → NoneFalls w (then_push semver env now r).1
    pushed (err x, v) h server = h server
    pushed (ok t, v) h server = omega (
      arith,
      h server,
      same-NoneFalls v (push_if_online semver env now t v)
          (push_if_online-HasSameEpochs semver env now t v) server,
    )

    to_owner :
        (owner : ℕ)
        → NoneFalls w (retry_to semver ienv env target_exists prev owner initiator now w).1
    to_owner owner = elim (Bool-cases target_exists) [
      | inr e ↦ rw (e, retry_to) same
      | inl e ↦ elim (Bool-cases (owner == prev.to_user_id)) [
        | inl f ↦ rw (e, f, retry_to) same
        | inr f ↦
            rw (e, f, retry_to)
              (pushed
                (initiate_exclusive semver ienv prev.server_id owner prev.to_user_id initiator now
                  w)
                (initiate_exclusive-NoneFalls semver ienv prev.server_id owner prev.to_user_id
                  initiator now w))
      ]
    ]

Step-NoneFalls : {w v : World} → Step w v → NoneFalls w v
Step-NoneFalls {w} {v} (initiates semver env server from to initiator now) =
    initiate_exclusive-NoneFalls semver env server from to initiator now w
Step-NoneFalls {w} {v} (cancels env transfer now rival) =
    same-NoneFalls w v (revert_transition-HasSameEpochs env _ "" transfer now w)
Step-NoneFalls {w} {v} (fails env reason transfer now rival) =
    same-NoneFalls w v (revert_transition-HasSameEpochs env _ reason transfer now w)
Step-NoneFalls {w} {v} (times_out env transfer now rival) =
    same-NoneFalls w v (revert_transition-HasSameEpochs env _ "" transfer now w)
Step-NoneFalls {w} {v} (sweeps env now rival) =
    same-NoneFalls w v (sweep_timeouts-HasSameEpochs env now w)
Step-NoneFalls {w} {v} (verifies f server transfer now) =
    same-NoneFalls w v (mark_verified-HasSameEpochs f server transfer now w)
Step-NoneFalls {w} {v} (delivers f server transfer now) =
    same-NoneFalls w v (mark_revert_delivered-HasSameEpochs f server transfer now w)
Step-NoneFalls {w} {v} (pushes semver env now t rival) =
    same-NoneFalls w v (push_if_online-HasSameEpochs semver env now t w)
Step-NoneFalls {w} {v} (reconnects semver env server now rival) =
    same-NoneFalls w v (on_agent_reconnect-HasSameEpochs semver env server now w)
Step-NoneFalls {w} {v} (retries semver ienv env r e prev initiator now rival) =
    retry-NoneFalls semver ienv env r e prev initiator now w
Step-NoneFalls {w} {v} (deletes_servers lists casts now servers) =
    same-NoneFalls w v (on_servers_deleted-HasSameEpochs lists casts now servers w)
Step-NoneFalls {w} {v} (deletes_users f casts now users) =
    same-NoneFalls w v (on_users_deleted-HasSameEpochs f casts now users w)
Step-NoneFalls {w} {v} (authenticates env secret uuid fresh) =
    same-NoneFalls w v (check-HasSameEpochs env secret uuid w)

pub Reach-NoneFalls : {w v : World} → Reach w v → NoneFalls w v
Reach-NoneFalls {w} here server = same-NoneFalls w w refl server
Reach-NoneFalls (next r s) server = omega (arith, Reach-NoneFalls r server, Step-NoneFalls s server)

settled-epoch_of :
    (server : ℕ) (t : ServerTransfer) (w : World) (r : Result (ServerTransfer × World))
    → ((u : ServerTransfer) (v : World)
        → r ≡ ok (u, v)
        → HasSameEpochs w v × (u.server_id ≡ server))
    → (settle w r).0 ≡ ok t
    → epoch_of server (settle w r).1 ≡ epoch_of server w + 1
unfolding register publish
settled-epoch_of server t w (err x) h e = cc
settled-epoch_of server t w (ok (u, v)) h e =
    let k = h u v refl in
    ground (
      arith,
      k.0,
      k.1,
      get-insert u.server_id server (epoch (get u.server_id v.control_epoch) + 1) v.control_epoch,
      ==_iff u.server_id server,
    )

-- An initiation that returns a transfer raises the epoch of its server.
pub initiate_exclusive-epoch_of :
    (semver : Semver) (env : InitiateEnv) (server from to initiator now : ℕ) (t : ServerTransfer)
    (w : World)
    → let v = initiate_exclusive semver env server from to initiator now w in
      v.0 ≡ ok t → epoch_of server v.1 ≡ epoch_of server w + 1
unfolding initiate_exclusive
initiate_exclusive-epoch_of semver env server from to initiator now t w =
    elim (Bool-cases (too_old semver server w)) [
      | inl e ↦ rw e (λ x. cc)
      | inr e ↦ rw e (elim (Bool-cases (has_pending server w)) [
        | inl f ↦ rw f (λ x. cc)
        | inr f ↦ rw f (
            settled-epoch_of server t w (initiate env server from to initiator now w)
              (λ u v k. initiate-HasSameEpochs env server from to initiator now w u v k))
      ])
    ]
