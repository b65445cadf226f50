-- ===== src/Transfer/Admission.antt =====
-- The server that an agent is admitted as is the one that its UUID names.
use sakura_monitoring.Base.{
  ℕ, ◌≡◌, refl, ap, ◌∙◌, Bool, true, false, Option, none, some, String, arith, ◌==◌, ==_iff, str_eq,
  str_eq_iff, nat_eq, string_eq, Option-cases, Bool-cases, inl, inr,
}
use sakura_monitoring.Base.Map.{Map, get, get-insert}
use sakura_monitoring.Transfer.Types.{World, ServerTransfer}
use sakura_monitoring.Transfer.Lookup.{
  lookup_pending, live_delivery, lookup_by_handshake_secret, lookup_server_by_verified_secret,
  lookup_by_terminal_secret, RecoveryKind, forward, revert,
}
use sakura_monitoring.Transfer.Verify.{
  Marked, promoted, unchanged, broken, mark_verified, settle_verified, promote,
  mark_revert_delivered, promote_revert, promotes_revert, verify_result,
}
use sakura_monitoring.Transfer.Auth.{
  AuthEnv, Reply, Verdict, admitted, denied, Owner, known, unregistered, refused, tolerated,
  is_from, has, authorize_server, authorize_agent_for_uuid, create_server, by_owner,
  check_user_secret, is_server, check_verified, delivered, by_recovery, check_recovery, by_marked,
  check_handshake, check,
}

server_of : Verdict → ℕ
server_of (admitted i) = i
server_of (denied d) = 0

admitted_injective : (i j : ℕ) → admitted i ≡ admitted j → i ≡ j
unfolding server_of
admitted_injective i j e = ap server_of e

Bound : String → Reply → Type 0
Bound uuid r = (sid : ℕ) → r.verdict ≡ admitted sid → get uuid r.world.uuid_to_id ≡ some sid

is_server-get : (sid : ℕ) (o : Option ℕ) → is_server sid o ≡ true → o ≡ some sid
is_server-get sid none e = ground arith
is_server-get sid (some x) e = ground (arith, ==_iff x sid)

create_server-Bound :
    (env : AuthEnv) (user : ℕ) (uuid : String) (w : World)
    → Bound uuid (create_server env user uuid w)
unfolding create_server Bound
create_server-Bound env user uuid w sid = elim (Option-cases env.created) [
  | inl e ↦ simp (e, create_server) (λ g. ground arith)
  | inr (id, e) ↦
      simp (e, create_server)
        (λ g. ground (arith, get-insert uuid uuid id w.uuid_to_id, str_eq_iff uuid uuid))
]

verify_result-uuids :
    (now : ℕ) (t : ServerTransfer) (w : World) (r : Map ℕ ServerTransfer × Bool)
    → (verify_result now t w r).1.uuid_to_id ≡ w.uuid_to_id
unfolding promote
verify_result-uuids now t w (rows, true) = refl
verify_result-uuids now t w (rows, false) = refl

mark_verified-uuids :
    (fails : Bool) (server transfer now : ℕ) (w : World)
    → (mark_verified fails server transfer now w).1.uuid_to_id ≡ w.uuid_to_id
unfolding mark_verified settle_verified promote
mark_verified-uuids fails server transfer now w = elim (Option-cases (get server w.pending)) [
  | inl e ↦ simp (mark_verified, e) refl
  | inr (t, e) ↦ elim (Bool-cases (t.id == transfer)) [
    | inr f ↦ simp (mark_verified, e, f) refl
    | inl f ↦ elim (Bool-cases fails) [
      | inl g ↦ simp (mark_verified, e, f, settle_verified, g) refl
      | inr g ↦ simp (mark_verified, e, f, settle_verified, g) (verify_result-uuids now t w _)
    ]
  ]
]

mark_revert_delivered-uuids :
    (fails : Bool) (server transfer now : ℕ) (w : World)
    → (mark_revert_delivered fails server transfer now w).0.uuid_to_id ≡ w.uuid_to_id
unfolding mark_revert_delivered promote_revert
mark_revert_delivered-uuids true server transfer now w = refl
mark_revert_delivered-uuids false server transfer now w =
    elim (Option-cases (get server w.terminal_secret_recovery)) [
      | inl e ↦ rw (mark_revert_delivered, promote_revert, e) refl
      | inr (t, e) ↦ elim (Bool-cases (promotes_revert transfer t)) [
        | inl f ↦ rw (mark_revert_delivered, promote_revert, e, f) refl
        | inr f ↦ rw (mark_revert_delivered, promote_revert, e, f) refl
      ]
    ]

delivered-uuids :
    (env : AuthEnv) (t : ServerTransfer) (kind : RecoveryKind) (w : World)
    → (delivered env t kind w).uuid_to_id ≡ w.uuid_to_id
delivered-uuids env t forward w = refl
delivered-uuids env t revert w =
    mark_revert_delivered-uuids env.deliver_fails t.server_id t.id env.now w

-- The owner that `authorizeAgentForUUID` finds is the UUID's, in the table that it leaves alone.
AuthBound : String → Owner × World → Type 0
AuthBound uuid (known i, v) = get uuid v.uuid_to_id ≡ some i
AuthBound uuid (unregistered, v) = Unit
AuthBound uuid (refused r, v) = Unit

tolerated-AuthBound :
    (now user cid : ℕ) (uuid : String) (w : World)
    → get uuid w.uuid_to_id ≡ some cid
    → AuthBound uuid (tolerated now user cid w)
unfolding tolerated AuthBound
tolerated-AuthBound now user cid uuid w e =
    elim (Bool-cases (is_from user (live_delivery now cid w.revert_deliveries))) [
      | inl f ↦ simp (tolerated, f) e
      | inr f ↦ elim (Bool-cases (is_from user (lookup_pending cid w))) [
        | inl g ↦ simp (tolerated, f, g) e
        | inr g ↦ simp (tolerated, f, g) tt
      ]
    ]

authorize-AuthBound :
    (now user : ℕ) (uuid : String) (w : World)
    → AuthBound uuid (authorize_agent_for_uuid now user uuid w)
unfolding authorize_agent_for_uuid authorize_server AuthBound
authorize-AuthBound now user uuid w = elim (Option-cases (get uuid w.uuid_to_id)) [
  | inl e ↦ simp (authorize_agent_for_uuid, e) tt
  | inr (cid, e) ↦ elim (Option-cases (get cid w.servers)) [
    | inl f ↦ simp (authorize_agent_for_uuid, e, f) tt
    | inr (s, f) ↦ elim (Bool-cases (user == 0)) [
      | inl z ↦ simp (authorize_agent_for_uuid, e, f, authorize_server, z) refl
      | inr z ↦ elim (Bool-cases (s.user_id == user)) [
        | inr o ↦
            simp (authorize_agent_for_uuid, e, f, authorize_server, z, o)
              (tolerated-AuthBound now user cid uuid w e)
        | inl o ↦ elim (Bool-cases (has (lookup_pending cid w))) [
          | inl q ↦ simp (authorize_agent_for_uuid, e, f, authorize_server, z, o, q) tt
          | inr q ↦ simp (authorize_agent_for_uuid, e, f, authorize_server, z, o, q) refl
        ]
      ]
    ]
  ]
]

module _ (env : AuthEnv) (secret uuid : String) where
  by_owner-Bound :
      (user : ℕ) (o : Owner) (w : World)
      → AuthBound uuid (o, w)
      → Bound uuid (by_owner env user uuid (o, w))
  unfolding Bound AuthBound
  by_owner-Bound user (known i) w e = λ sid g. e ∙ ap some (admitted_injective i sid g)
  by_owner-Bound user unregistered w e = create_server-Bound env user uuid w
  by_owner-Bound user (refused r) w e = λ sid g. ground arith

  check_user_secret-Bound : (w : World) → Bound uuid (check_user_secret env secret uuid w)
  unfolding check_user_secret Bound
  check_user_secret-Bound w = elim (Option-cases (get secret env.agent_secrets)) [
    | inl e ↦ simp (e, check_user_secret) (λ sid g. ground arith)
    | inr (user, e) ↦
        let r = authorize_agent_for_uuid env.now user uuid w in
        simp (e, check_user_secret)
          (by_owner-Bound user r.0 r.1 (authorize-AuthBound env.now user uuid w))
  ]

  check_verified-Bound : (w : World) → Bound uuid (check_verified env secret uuid w)
  unfolding check_verified Bound
  check_verified-Bound w = elim (Option-cases (lookup_server_by_verified_secret secret w)) [
    | inl e ↦ simp (e, check_verified) (check_user_secret-Bound w)
    | inr (cid, e) ↦ elim (Bool-cases (is_server cid (get uuid w.uuid_to_id))) [
      | inl f ↦
          simp (e, check_verified, f)
            (λ sid g.
              is_server-get cid (get uuid w.uuid_to_id) f ∙ ap some (admitted_injective cid sid g))
      | inr f ↦ simp (e, check_verified, f) (λ sid g. ground arith)
    ]
  ]

  by_recovery-Bound :
      (o : Option (ServerTransfer × RecoveryKind)) (w : World)
      → Bound uuid (by_recovery env secret uuid (o, w))
  unfolding Bound
  by_recovery-Bound none w = check_verified-Bound w
  by_recovery-Bound (some (t, kind)) w =
      elim (Bool-cases (is_server t.server_id (get uuid w.uuid_to_id))) [
        | inl f ↦ simp f (λ sid g.
            ap (get uuid) (delivered-uuids env t kind w)
            ∙ is_server-get t.server_id (get uuid w.uuid_to_id) f
            ∙ ap some (admitted_injective t.server_id sid g))
        | inr f ↦ simp f (λ sid g. ground arith)
      ]

  check_recovery-Bound : (w : World) → Bound uuid (check_recovery env secret uuid w)
  unfolding check_recovery Bound
  check_recovery-Bound w =
      let r = lookup_by_terminal_secret env.now secret w in by_recovery-Bound r.0 r.1

  by_marked-Bound :
      (t : ServerTransfer) (m : Marked) (w : World)
      → get uuid w.uuid_to_id ≡ some t.server_id
      → Bound uuid (by_marked env secret uuid t (m, w))
  unfolding Bound
  by_marked-Bound t broken w e = λ sid g. ground arith
  by_marked-Bound t (promoted t') w e = λ sid g. e ∙ ap some (admitted_injective t.server_id sid g)
  by_marked-Bound t unchanged w e = check_recovery-Bound w

  check_handshake-Bound : (w : World) → Bound uuid (check_handshake env secret uuid w)
  unfolding check_handshake Bound
  check_handshake-Bound w = elim (Option-cases (lookup_by_handshake_secret secret w)) [
    | inl e ↦ simp (e, check_handshake) (check_recovery-Bound w)
    | inr (t, e) ↦ elim (Bool-cases (is_server t.server_id (get uuid w.uuid_to_id))) [
      | inr f ↦ simp (e, check_handshake, f) (λ sid g. ground arith)
      | inl f ↦
          let r = mark_verified env.verify_fails t.server_id t.id env.now w in
          simp (e, check_handshake, f)
            (by_marked-Bound t r.0 r.1 (
              ap (get uuid) (mark_verified-uuids env.verify_fails t.server_id t.id env.now w)
              ∙ is_server-get t.server_id (get uuid w.uuid_to_id) f))
    ]
  ]

  -- An agent that is admitted, by whichever of its secrets, is admitted as the server of the UUID that
  -- it names, in the table as the call leaves it.
  pub check-admitted :
      (sid : ℕ) (w : World)
      → (check env secret uuid w).verdict ≡ admitted sid
      → get uuid (check env secret uuid w).world.uuid_to_id ≡ some sid
  unfolding check Bound
  check-admitted sid w = elim (Bool-cases (str_eq secret "")) [
    | inl e ↦ simp (e, check) (λ g. ground arith)
    | inr e ↦ elim (Bool-cases (env.uuid_is_valid uuid)) [
      | inl v ↦ simp (e, check, v) (check_handshake-Bound w sid)
      | inr v ↦ simp (e, check, v) (λ g. ground arith)
    ]
  ]
