-- ===== src/Transfer/Epochs/Authentication.antt =====
-- Authentication of an agent changes no control epoch.
use sakura_monitoring.Base.{
  ℕ, inl, inr, refl, ◌∙◌, Option, none, some, String, nat_eq, string_eq, arith, Option-cases,
}
use sakura_monitoring.Base.Map.{get}
use sakura_monitoring.Transfer.Types.{World, ServerTransfer}
use sakura_monitoring.Transfer.Lookup.{
  lookup_by_terminal_secret, lookup_by_handshake_secret, RecoveryKind, forward, revert,
}
use sakura_monitoring.Transfer.Verify.{Marked, broken, promoted, unchanged, mark_verified}
use sakura_monitoring.Transfer.Auth.{
  AuthEnv, Owner, tolerated, authorize_server, authorize_agent_for_uuid, create_server, by_owner,
  check_user_secret, check_verified, by_recovery, check_recovery, by_marked, check_handshake, check,
}
use sakura_monitoring.Transfer.Epochs.{
  HasSameEpochs, mark_verified-HasSameEpochs, mark_revert_delivered-HasSameEpochs,
}

by_owner-HasSameEpochs :
    (env : AuthEnv) (user : ℕ) (uuid : String) (w : World) (o : Owner × World)
    → HasSameEpochs w o.1
    → HasSameEpochs w (by_owner env user uuid o).world
unfolding create_server
by_owner-HasSameEpochs env user uuid w o h = ground arith

authorize-HasSameEpochs :
    (now user : ℕ) (uuid : String) (w : World)
    → HasSameEpochs w (authorize_agent_for_uuid now user uuid w).1
unfolding authorize_agent_for_uuid authorize_server tolerated
authorize-HasSameEpochs now user uuid w = ground arith

check_user_secret-HasSameEpochs :
    (env : AuthEnv) (secret uuid : String) (w : World)
    → HasSameEpochs w (check_user_secret env secret uuid w).world
unfolding check_user_secret
check_user_secret-HasSameEpochs env secret uuid w =
    elim (Option-cases (get secret env.agent_secrets)) [
      | inl e ↦ rw (e, check_user_secret) refl
      | inr (user, e) ↦
          rw (e, check_user_secret)
            (by_owner-HasSameEpochs env user uuid w (authorize_agent_for_uuid env.now user uuid w)
              (authorize-HasSameEpochs env.now user uuid w))
    ]

check_verified-HasSameEpochs :
    (env : AuthEnv) (secret uuid : String) (w : World)
    → HasSameEpochs w (check_verified env secret uuid w).world
unfolding check_verified
check_verified-HasSameEpochs env secret uuid w =
    ground (arith, check_user_secret-HasSameEpochs env secret uuid w)

by_recovery-HasSameEpochs :
    (env : AuthEnv) (secret uuid : String) (w : World)
    (o : Option (ServerTransfer × RecoveryKind) × World)
    → HasSameEpochs w o.1
    → HasSameEpochs w (by_recovery env secret uuid o).world
by_recovery-HasSameEpochs env secret uuid w (none, v) h =
    check_verified-HasSameEpochs env secret uuid v ∙ h
by_recovery-HasSameEpochs env secret uuid w (some (t, forward), v) h = ground (arith, h)
by_recovery-HasSameEpochs env secret uuid w (some (t, revert), v) h =
    let told = mark_revert_delivered-HasSameEpochs env.deliver_fails t.server_id t.id env.now v in
    ground (arith, h, told)

check_recovery-HasSameEpochs :
    (env : AuthEnv) (secret uuid : String) (w : World)
    → HasSameEpochs w (check_recovery env secret uuid w).world
unfolding check_recovery lookup_by_terminal_secret
check_recovery-HasSameEpochs env secret uuid w =
    by_recovery-HasSameEpochs env secret uuid w (lookup_by_terminal_secret env.now secret w)
      (ground arith)

by_marked-HasSameEpochs :
    (env : AuthEnv) (secret uuid : String) (t : ServerTransfer) (w : World) (m : Marked × World)
    → HasSameEpochs w m.1
    → HasSameEpochs w (by_marked env secret uuid t m).world
by_marked-HasSameEpochs env secret uuid t w (broken, v) h = h
by_marked-HasSameEpochs env secret uuid t w (promoted u, v) h = h
by_marked-HasSameEpochs env secret uuid t w (unchanged, v) h =
    check_recovery-HasSameEpochs env secret uuid v ∙ h

check_handshake-HasSameEpochs :
    (env : AuthEnv) (secret uuid : String) (w : World)
    → HasSameEpochs w (check_handshake env secret uuid w).world
unfolding check_handshake
check_handshake-HasSameEpochs env secret uuid w =
    elim (Option-cases (lookup_by_handshake_secret secret w)) [
      | inl e ↦ rw (e, check_handshake) (check_recovery-HasSameEpochs env secret uuid w)
      | inr (t, e) ↦
          let marked = mark_verified env.verify_fails t.server_id t.id env.now w in
          let told =
            by_marked-HasSameEpochs env secret uuid t w marked
              (mark_verified-HasSameEpochs env.verify_fails t.server_id t.id env.now w) in
          rw (e, check_handshake) (ground (arith, told))
    ]

pub check-HasSameEpochs :
    (env : AuthEnv) (secret uuid : String) (w : World)
    → HasSameEpochs w (check env secret uuid w).world
unfolding check
check-HasSameEpochs env secret uuid w =
    ground (arith, check_handshake-HasSameEpochs env secret uuid w)
