-- ===== src/Transfer/Reconnect.antt =====
-- An agent that proved the new credential once is admitted with it again.
use sakura_monitoring.Base.{
  ℕ, ◌≡◌, ◌≢◌, refl, ap, ◌∙◌, true, false, none, some, String, arith, ◌==◌, ==_iff, beq_refl,
  str_eq, str_eq_iff, nat_eq, string_eq, Bool-cases, inl, inr,
}
use sakura_monitoring.Base.Map.{
  get, insert, delete, find, get-insert, get-delete, insert-IsMap, delete-IsMap,
}
use sakura_monitoring.Transfer.Types.{World, ServerTransfer, verified}
use sakura_monitoring.Transfer.Lookup.{
  lookup_by_handshake_secret, lookup_server_by_verified_secret, lookup_by_terminal_secret,
  recovery_hit,
}
use sakura_monitoring.Transfer.Verify.{promoted, mark_verified}
use sakura_monitoring.Transfer.Auth.{
  AuthEnv, admitted, unblocked, check_verified, check_recovery, check_handshake, check,
}
use sakura_monitoring.Transfer.Invariant.Consistent.{Inv}
use sakura_monitoring.Transfer.Credentials.{
  IsOwnSecret, find_only, find-none, mark_verified-promotes,
}

str_eq_no : (a b : String) → a ≢ b → str_eq a b ≡ false
str_eq_no a b n = ground (arith, str_eq_iff a b)

no_hit :
    (now : ℕ) (secret : String) (t : ServerTransfer)
    → (t.handshake_secret ≢ secret) × (t.revert_handshake_secret ≢ secret)
    → recovery_hit now secret t ≡ false
no_hit now secret t n =
    ground (
      arith,
      str_eq_no t.handshake_secret secret n.0,
      str_eq_no t.revert_handshake_secret secret n.1,
    )

-- The lookups before the last but one find nothing, and that one finds the server.
check-long_term :
    (env : AuthEnv) (secret uuid : String) (server : ℕ) (v : World)
    → str_eq secret "" ≡ false
    → env.uuid_is_valid uuid ≡ true
    → get uuid v.uuid_to_id ≡ some server
    → find (λ _ t. str_eq t.handshake_secret secret) v.pending ≡ none
    → find (λ _ t. recovery_hit env.now secret t) v.terminal_secret_recovery ≡ none
    → find (λ _ s. str_eq s secret) v.verified_handshakes ≡ some (server, secret)
    → (check env secret uuid v).verdict ≡ admitted server
unfolding check check_handshake check_recovery check_verified lookup_by_handshake_secret
    lookup_server_by_verified_secret lookup_by_terminal_secret
check-long_term env secret uuid server v given valid of quiet ended mine =
    simp
      (
        check,
        given,
        valid,
        check_handshake,
        lookup_by_handshake_secret,
        quiet,
        check_recovery,
        lookup_by_terminal_secret,
        ended,
        check_verified,
        lookup_server_by_verified_secret,
        mine,
        of,
        beq_refl server,
      )
      refl

-- The secret of a pending transfer is found first.
check-pending :
    (env : AuthEnv) (secret uuid : String) (server : ℕ) (t t' : ServerTransfer) (w v : World)
    → str_eq secret "" ≡ false
    → env.uuid_is_valid uuid ≡ true
    → env.verify_fails ≡ false
    → get uuid w.uuid_to_id ≡ some t.server_id
    → find (λ _ x. str_eq x.handshake_secret secret) w.pending ≡ some (server, t)
    → mark_verified false t.server_id t.id env.now w ≡ (promoted t', v)
    → check env secret uuid w
      ≡ record { verdict = admitted t.server_id; firewall = unblocked; world = v }
unfolding check check_handshake lookup_by_handshake_secret
check-pending env secret uuid server t t' w v given valid works of found marked =
    simp
      (
        check,
        given,
        valid,
        check_handshake,
        lookup_by_handshake_secret,
        found,
        of,
        beq_refl t.server_id,
        works,
        marked,
      )
      refl

-- Once promoted, the secret is the server's alone.
promoted-long_term :
    (env : AuthEnv) (uuid : String) (t : ServerTransfer) (w v : World)
    → Inv w
    → IsOwnSecret t.handshake_secret t.server_id w
    → env.uuid_is_valid uuid ≡ true
    → get uuid v.uuid_to_id ≡ some t.server_id
    → v.pending ≡ delete t.server_id w.pending
    → v.verified_handshakes ≡ insert t.server_id t.handshake_secret w.verified_handshakes
    → v.terminal_secret_recovery ≡ delete t.server_id w.terminal_secret_recovery
    → (check env t.handshake_secret uuid v).verdict ≡ admitted t.server_id
promoted-long_term env uuid t w v h own valid of ep ev er =
    let secret = t.handshake_secret in
    let quiet : find (λ _ x. str_eq x.handshake_secret secret) v.pending ≡ none = rw ep (
      find-none (λ _ x. str_eq x.handshake_secret secret) (delete t.server_id w.pending)
        (delete-IsMap t.server_id w.pending h.distinct)
        (λ k x g. ground (
          arith,
          get-delete t.server_id k w.pending,
          own.pending k x,
          ==_iff t.server_id k,
          str_eq_iff x.handshake_secret secret,
        ))) in
    let ended : find (λ _ x. recovery_hit env.now secret x) v.terminal_secret_recovery ≡ none =
      rw er (
        find-none (λ _ x. recovery_hit env.now secret x)
          (delete t.server_id w.terminal_secret_recovery)
          (delete-IsMap t.server_id w.terminal_secret_recovery own.recovery_distinct)
          (λ k x g. elim (Bool-cases (t.server_id == k)) [
            | inl s ↦ ground (arith, get-delete t.server_id k w.terminal_secret_recovery)
            | inr s ↦ no_hit env.now secret x (
                own.recovery k x
                  (ground (arith, get-delete t.server_id k w.terminal_secret_recovery))
                  (λ e. ground (arith, ==_iff t.server_id k)))
          ])) in
    let mine : find (λ _ s. str_eq s secret) v.verified_handshakes ≡ some (t.server_id, secret) =
      rw ev (
        find_only (λ _ s. str_eq s secret) (insert t.server_id secret w.verified_handshakes)
          t.server_id secret
          (insert-IsMap t.server_id secret w.verified_handshakes own.verified_distinct)
          (ground (arith, get-insert t.server_id t.server_id secret w.verified_handshakes))
          (ground (arith, str_eq_iff secret secret))
          (λ k s g p. ground (
            arith,
            get-insert t.server_id k secret w.verified_handshakes,
            own.verified k,
            ==_iff t.server_id k,
            str_eq_iff s secret,
          ))) in
    check-long_term env secret uuid t.server_id v (str_eq_no secret "" own.given) valid of quiet
      ended mine

-- In a state in which the database and the pending index agree: a secret that is one pending
-- transfer's alone, of an agent whose UUID names the transfer's server, admits the agent as that
-- server; that frees the pending slot, and the same secret admits the agent again afterwards, as the
-- server's long-term credential. The database takes the update.
pub check-check :
    (env env' : AuthEnv) (uuid : String) (t : ServerTransfer) (w : World)
    → Inv w
    → get t.server_id w.pending ≡ some t
    → IsOwnSecret t.handshake_secret t.server_id w
    → get uuid w.uuid_to_id ≡ some t.server_id
    → env.uuid_is_valid uuid ≡ true
    → env'.uuid_is_valid uuid ≡ true
    → env.verify_fails ≡ false
    → let r = check env t.handshake_secret uuid w in
      (r.verdict ≡ admitted t.server_id)
      × (get t.server_id r.world.pending ≡ none)
      × ((check env' t.handshake_secret uuid r.world).verdict ≡ admitted t.server_id)
check-check env env' uuid t w h held own of valid valid' works =
    let secret = t.handshake_secret in
    let m = mark_verified false t.server_id t.id env.now w in
    let v = m.1 in
    let p = mark_verified-promotes env.now t w h held own.given in
    let found : find (λ _ x. str_eq x.handshake_secret secret) w.pending ≡ some (t.server_id, t) =
      find_only (λ _ x. str_eq x.handshake_secret secret) w.pending t.server_id t h.distinct held
        (ground (arith, str_eq_iff secret secret))
        (λ k x g e. own.pending k x g (ground (arith, str_eq_iff x.handshake_secret secret))) in
    let t' = record t { status = verified; acked_at = some env.now } in
    let marked : m ≡ (promoted t', v) = ap (λ x. (x, v)) p.0 in
    let first =
      check-pending env secret uuid t.server_id t t' w v (str_eq_no secret "" own.given) valid works
        of found marked in
    let again =
      promoted-long_term env' uuid t w v h own valid' (ap (get uuid) p.6 ∙ of) p.2 p.3 p.4 in
    rw first (refl, rw p.2 (ground (arith, get-delete t.server_id t.server_id w.pending)), again)
