-- ===== src/Transfer/Invariant/Authenticating.antt =====
-- The authentication of an agent keeps the agreement of the database with the pending index.
use sakura_monitoring.Base.{
  ℕ, ◌≡◌, refl, subst, Bool, Option, none, some, String, arith, ◌==◌, str_eq, nat_eq, string_eq,
  Option-cases, Bool-cases, inl, inr,
}
use sakura_monitoring.Base.Map.{get, find, get-insert, get-delete}
use sakura_monitoring.Transfer.Types.{World, Server, ServerTransfer}
use sakura_monitoring.Transfer.Lookup.{
  lookup_by_handshake_secret, lookup_server_by_verified_secret, lookup_by_terminal_secret,
  recovery_hit, with_kind, prune_until_hit, RecoveryKind, forward, revert,
}
use sakura_monitoring.Transfer.Verify.{
  Marked, promoted, unchanged, broken, mark_verified, settle_verified, promote,
}
use sakura_monitoring.Transfer.Auth.{
  AuthEnv, Owner, known, unregistered, refused, tolerated, authorize_server,
  authorize_agent_for_uuid, create_server, by_owner, check_user_secret, is_server, check_verified,
  delivered, by_recovery, check_recovery, by_marked, check_handshake, check,
}
use sakura_monitoring.Transfer.Steps.{FreshServer}
use sakura_monitoring.Transfer.Invariant.Consistent.{Inv}
use sakura_monitoring.Transfer.Invariant.Verifying.{mark_verified-Inv, mark_revert_delivered-Inv}

-- A new server changes what is known of no pending transfer.
create_server-Inv :
    (env : AuthEnv) (user : ℕ) (uuid : String) (w : World)
    → FreshServer env.created w
    → Inv w
    → Inv (create_server env user uuid w).world
unfolding create_server
create_server-Inv env user uuid w fresh h = elim (Option-cases env.created) [
  | inl e ↦ simp (e, create_server) h
  | inr (id, e) ↦
      let free : get id w.pending ≡ none = subst (λ o. FreshServer o w) e fresh in
      let v : Server = record {
        user_id = user;
        uuid = uuid;
        task_stream = none;
        host_version = none;
      } in
      simp (e, create_server)
        (record {
          row_id = h.row_id;
          slot_row = h.slot_row;
          row_slot = h.row_slot;
          db_owner = λ s u t g o. ground (arith, get-insert id s user w.db_owner, h.db_owner s u t);
          cached_owner =
              λ s u t g o. ground (arith, get-insert id s v w.servers, h.cached_owner s u t);
          distinct = h.distinct;
          rows_distinct = h.rows_distinct;
        })
]

-- Refusing and registering are the only things that `authorizeAgentForUUID` leads to; it drops at
-- most an old delivery.
authorized-Inv :
    (now user : ℕ) (uuid : String) (w : World)
    → let r = authorize_agent_for_uuid now user uuid w in
      (Inv w → Inv r.1) × (r.1.pending ≡ w.pending)
unfolding authorize_agent_for_uuid authorize_server tolerated
authorized-Inv now user uuid w = elim (Option-cases (get uuid w.uuid_to_id)) [
  | inl e ↦ rw (e, authorize_agent_for_uuid) (λ h. h, refl)
  | inr (cid, e) ↦
      rw (e, authorize_agent_for_uuid)
        (elim (Option-cases (get cid w.servers)) [
          | inl f ↦ rw f (λ h. h, refl)
          | inr (s, f) ↦ rw f (elim (Bool-cases (user == 0)) [
            | inl z ↦ rw z (λ h. h, refl)
            | inr z ↦ rw z (elim (Bool-cases (s.user_id == user)) [
              | inl o ↦ rw o (λ h. h, refl)
              | inr o ↦ rw o (λ h. h, refl)
            ])
          ])
        ])
]

FreshServer-pending :
    (o : Option ℕ) (w v : World) → v.pending ≡ w.pending → FreshServer o w → FreshServer o v
FreshServer-pending none w v e h = tt
FreshServer-pending (some id) w v e h = rw e h

mark_verified-FreshServer :
    (o : Option ℕ) (fails : Bool) (server transfer now : ℕ) (w : World)
    → FreshServer o w
    → FreshServer o (mark_verified fails server transfer now w).1
unfolding mark_verified settle_verified promote
mark_verified-FreshServer none fails server transfer now w fresh = tt
mark_verified-FreshServer (some id) fails server transfer now w fresh =
    elim (Option-cases (get server w.pending)) [
      | inl e ↦ rw (e, mark_verified) fresh
      | inr (t, e) ↦ rw (e, mark_verified) (ground (arith, get-delete t.server_id id w.pending))
    ]

delivered-Inv :
    (env : AuthEnv) (t : ServerTransfer) (kind : RecoveryKind) (w : World)
    → Inv w
    → Inv (delivered env t kind w)
delivered-Inv env t forward w h = h
delivered-Inv env t revert w h =
    mark_revert_delivered-Inv env.deliver_fails t.server_id t.id env.now w h

module _ (env : AuthEnv) (secret uuid : String) where
  by_owner-Inv :
      (user : ℕ) (o : Owner) (w : World)
      → FreshServer env.created w
      → Inv w
      → Inv (by_owner env user uuid (o, w)).world
  by_owner-Inv user (known cid) w fresh h = h
  by_owner-Inv user (refused reason) w fresh h = h
  by_owner-Inv user unregistered w fresh h = create_server-Inv env user uuid w fresh h

  check_user_secret-Inv :
      (w : World)
      → FreshServer env.created w
      → Inv w
      → Inv (check_user_secret env secret uuid w).world
  unfolding check_user_secret
  check_user_secret-Inv w fresh h = elim (Option-cases (get secret env.agent_secrets)) [
    | inl e ↦ simp (e, check_user_secret) h
    | inr (user, e) ↦
        let r = authorize_agent_for_uuid env.now user uuid w in
        let (kept, same) = authorized-Inv env.now user uuid w in
        simp (e, check_user_secret)
          (by_owner-Inv user r.0 r.1 (FreshServer-pending env.created w r.1 same fresh) (kept h))
  ]

  check_verified-Inv :
      (w : World) → FreshServer env.created w → Inv w → Inv (check_verified env secret uuid w).world
  unfolding check_verified
  check_verified-Inv w fresh h = elim (Option-cases (lookup_server_by_verified_secret secret w)) [
    | inl e ↦ rw (e, check_verified) (check_user_secret-Inv w fresh h)
    | inr (cid, e) ↦
        rw (e, check_verified)
          (elim (Bool-cases (is_server cid (get uuid w.uuid_to_id))) [
            | inl f ↦ simp f h
            | inr f ↦ simp f h
          ])
  ]

  by_recovery-Inv :
      (o : Option (ServerTransfer × RecoveryKind)) (w : World)
      → FreshServer env.created w
      → Inv w
      → Inv (by_recovery env secret uuid (o, w)).world
  by_recovery-Inv none w fresh h = check_verified-Inv w fresh h
  by_recovery-Inv (some (t, kind)) w fresh h =
      elim (Bool-cases (is_server t.server_id (get uuid w.uuid_to_id))) [
        | inr f ↦ simp f h
        | inl f ↦ simp f (delivered-Inv env t kind w h)
      ]

  check_recovery-Inv :
      (w : World) → FreshServer env.created w → Inv w → Inv (check_recovery env secret uuid w).world
  unfolding check_recovery lookup_by_terminal_secret
  check_recovery-Inv w fresh h = elim (Bool-cases (str_eq secret "")) [
    | inl e ↦ rw (e, lookup_by_terminal_secret) (check_verified-Inv w fresh h)
    | inr e ↦
        let hit = find (λ _ t. recovery_hit env.now secret t) w.terminal_secret_recovery in
        let left = prune_until_hit env.now secret w.terminal_secret_recovery in
        rw (e, lookup_by_terminal_secret)
          (by_recovery-Inv (with_kind secret hit) (record w { terminal_secret_recovery = left })
            (FreshServer-pending env.created w (record w { terminal_secret_recovery = left }) refl
              fresh)
            h)
  ]

  by_marked-Inv :
      (t : ServerTransfer) (m : Marked) (w : World)
      → FreshServer env.created w
      → Inv w
      → Inv (by_marked env secret uuid t (m, w)).world
  by_marked-Inv t broken w fresh h = h
  by_marked-Inv t (promoted t') w fresh h = h
  by_marked-Inv t unchanged w fresh h = check_recovery-Inv w fresh h

  check_handshake-Inv :
      (w : World)
      → FreshServer env.created w
      → Inv w
      → Inv (check_handshake env secret uuid w).world
  unfolding check_handshake
  check_handshake-Inv w fresh h = elim (Option-cases (lookup_by_handshake_secret secret w)) [
    | inl e ↦ rw (e, check_handshake) (check_recovery-Inv w fresh h)
    | inr (t, e) ↦
        rw (e, check_handshake)
          (elim (Bool-cases (is_server t.server_id (get uuid w.uuid_to_id))) [
            | inr f ↦ simp f h
            | inl f ↦
                let r = mark_verified env.verify_fails t.server_id t.id env.now w in
                simp f (
                  by_marked-Inv t r.0 r.1
                    (mark_verified-FreshServer env.created env.verify_fails t.server_id t.id env.now
                      w fresh)
                    (mark_verified-Inv env.verify_fails t.server_id t.id env.now w h))
          ])
  ]

  pub check-Inv :
      (w : World) → FreshServer env.created w → Inv w → Inv (check env secret uuid w).world
  unfolding check
  check-Inv w fresh h = elim (Bool-cases (str_eq secret "")) [
    | inl e ↦ rw (e, check) h
    | inr e ↦
        rw (e, check)
          (elim (Bool-cases (env.uuid_is_valid uuid)) [
            | inl v ↦ simp v (check_handshake-Inv w fresh h)
            | inr v ↦ simp v h
          ])
  ]
