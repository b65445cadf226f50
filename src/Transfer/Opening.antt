-- ===== src/Transfer/Opening.antt =====
-- What `InitiateExclusive` promises, and that a cancellation takes it back.
use sakura_monitoring.Base.{
  ℕ, suc, ◌≡◌, refl, ap, subst, none, some, String, ◌∷◌, arith, nat_eq, Option-cases, Bool-cases,
  inl, inr, ◌∙◌,
}
use sakura_monitoring.Base.Map.{Map, get, insert, get-insert, get-delete}
use sakura_monitoring.Transfer.Types.{
  World, ServerTransfer, Result, ok, err, TransferError, pending, update_owner, cancelled,
}
use sakura_monitoring.Transfer.Lookup.{has_pending}
use sakura_monitoring.Transfer.Initiate.{
  Semver, InitiateEnv, new_transfer, claim_owner, initiate, publish, register, settle, too_old,
  initiate_exclusive,
}
use sakura_monitoring.Transfer.Revert.{RevertEnv, terminated, cancel}
use sakura_monitoring.Transfer.Invariant.Consistent.{Inv, owner_of}
use sakura_monitoring.Transfer.Invariant.Begin.{
  own_owner, update_owner-others, initiate_exclusive-Inv,
}
use sakura_monitoring.Transfer.Rollback.{IsCalm}
use sakura_monitoring.Transfer.Outcome.{revert_transition-IsRolledBack}

settle-error :
    (w : World) (r : Result (ServerTransfer × World)) (e : TransferError)
    → (settle w r).0 ≡ err e
    → (settle w r).1 ≡ w
settle-error w (err x) e h = refl
settle-error w (ok (t, v)) e h = ground arith

-- An initiation that returns an error leaves the state as it was.
pub initiate_exclusive-error :
    (semver : Semver) (env : InitiateEnv) (server from to initiator now : ℕ) (w : World)
    (e : TransferError)
    → (initiate_exclusive semver env server from to initiator now w).0 ≡ err e
    → (initiate_exclusive semver env server from to initiator now w).1 ≡ w
unfolding initiate_exclusive
initiate_exclusive-error semver env server from to initiator now w e =
    elim (Bool-cases (too_old semver server w)) [
      | inl b ↦ rw b (λ h. refl)
      | inr b ↦ rw b (elim (Bool-cases (has_pending server w)) [
        | inl p ↦ rw p (λ h. refl)
        | inr p ↦ rw p (settle-error w (initiate env server from to initiator now w) e)
      ])
    ]

-- What an initiation from `w` that returned `t` leaves in `v`: the server had no pending transfer and
-- now `t` is its pending transfer, stored with the caller's ids; the server belongs to the target in
-- the database and in the cache; an old rollback waits for delivery no more; the streams of the server
-- are revoked and the event is sent; nothing became a long-term credential.
pub record IsOpened (server from to : ℕ) (t : ServerTransfer) (w v : World) : Type 0 where
  pub was_free : get server w.pending ≡ none
  pub server_id : t.server_id ≡ server
  pub from_user_id : t.from_user_id ≡ from
  pub to_user_id : t.to_user_id ≡ to
  pub status : t.status ≡ pending
  pub row : get t.id v.transfers ≡ some t
  pub slot : get server v.pending ≡ some t
  pub db_owner : get server v.db_owner ≡ some to
  pub cached_owner : (u : ℕ) → owner_of (get server v.servers) ≡ some u → u ≡ to
  pub no_delivery : get server v.revert_deliveries ≡ none
  pub revoked : v.revoked ≡ server ∷ w.revoked
  pub events : v.events ≡ t ∷ w.events
  pub verified : v.verified_handshakes ≡ w.verified_handshakes

register-IsOpened :
    (t : ServerTransfer) (w : World) (owners : Map ℕ ℕ)
    → get t.server_id w.pending ≡ none
    → t.status ≡ pending
    → update_owner t.server_id t.to_user_id w.db_owner ≡ some owners
    → IsOpened t.server_id t.from_user_id t.to_user_id t w (
        register t (record w {
          transfers = insert t.id t w.transfers;
          next_id = suc w.next_id;
          db_owner = owners;
        }))
unfolding register publish
register-IsOpened t w owners free st owned = record {
  was_free = free;
  server_id = refl;
  from_user_id = refl;
  to_user_id = refl;
  status = st;
  row = ground (arith, get-insert t.id t.id t w.transfers);
  slot = ground (arith, get-insert t.server_id t.server_id t w.pending);
  db_owner =
      rw (update_owner-others t.server_id t.to_user_id w.db_owner owners owned)
        (ground (arith, get-insert t.server_id t.server_id t.to_user_id w.db_owner));
  cached_owner = own_owner t.server_id t.to_user_id w.servers;
  no_delivery = ground (arith, get-delete t.server_id t.server_id w.revert_deliveries);
  revoked = refl;
  events = refl;
  verified = refl;
}

value : ServerTransfer → Result ServerTransfer → ServerTransfer
value t (ok x) = x
value t (err e) = t

ok_injective : (t u : ServerTransfer) → ok t ≡ ok u → t ≡ u
unfolding value
ok_injective t u e = ap (value t) e

claim_owner-IsOpened :
    (env : InitiateEnv) (server from to initiator now : ℕ) (h r : String) (t : ServerTransfer)
    (w : World)
    → get server w.pending ≡ none
    → let c = settle w (claim_owner env (new_transfer server from to initiator now h r w) w) in
      c.0 ≡ ok t → IsOpened server from to t w c.1
unfolding claim_owner register publish
claim_owner-IsOpened env server from to initiator now h r t w free =
    elim (Bool-cases env.owner_fails) [
      | inl e ↦ simp (e, claim_owner) (λ c. ground arith)
      | inr e ↦ elim (Option-cases (update_owner server to w.db_owner)) [
        | inl f ↦ simp (e, claim_owner, f) (λ c. ground arith)
        | inr (owners, f) ↦ elim (Bool-cases env.commit_fails) [
          | inl g ↦ simp (e, claim_owner, f, g) (λ c. ground arith)
          | inr g ↦
              simp (e, claim_owner, f, g)
                (λ c.
                  let n = new_transfer server from to initiator now h r w in
                  subst
                    (λ x. IsOpened server from to x w (
                      register n (record w {
                        transfers = insert n.id n w.transfers;
                        next_id = suc w.next_id;
                        db_owner = owners;
                      })))
                    (ok_injective n t c) (register-IsOpened n w owners free refl f))
        ]
      ]
    ]

initiate-IsOpened :
    (env : InitiateEnv) (server from to initiator now : ℕ) (t : ServerTransfer) (w : World)
    → get server w.pending ≡ none
    → let c = settle w (initiate env server from to initiator now w) in
      c.0 ≡ ok t → IsOpened server from to t w c.1
unfolding initiate
initiate-IsOpened env server from to initiator now t w free = elim (Option-cases env.handshake) [
  | inl e ↦ simp (e, initiate) (λ c. ground arith)
  | inr (h, e) ↦ elim (Option-cases env.revert_handshake) [
    | inl f ↦ simp (e, f, initiate) (λ c. ground arith)
    | inr (r, f) ↦ elim (Bool-cases env.create_fails) [
      | inl g ↦ simp (e, f, g, initiate) (λ c. ground arith)
      | inr g ↦
          simp (e, f, g, initiate)
            (claim_owner-IsOpened env server from to initiator now h r t w free)
    ]
  ]
]

-- An initiation that returns a transfer leaves the state that `IsOpened` describes; so one on a server
-- with a pending transfer returns none.
pub initiate_exclusive-IsOpened :
    (semver : Semver) (env : InitiateEnv) (server from to initiator now : ℕ) (t : ServerTransfer)
    (w : World)
    → let r = initiate_exclusive semver env server from to initiator now w in
      r.0 ≡ ok t → IsOpened server from to t w r.1
unfolding initiate_exclusive
initiate_exclusive-IsOpened semver env server from to initiator now t w =
    elim (Bool-cases (too_old semver server w)) [
      | inl b ↦ rw b (λ c. ground arith)
      | inr b ↦ rw b (elim (Option-cases (get server w.pending)) [
        | inr (x, p) ↦ rw (p, has_pending) (λ c. ground arith)
        | inl p ↦ rw (p, has_pending) (initiate-IsOpened env server from to initiator now t w p)
      ])
    ]

-- An initiation that returns a transfer and a cancellation of it that meets no failure and no rival,
-- from a state in which the database and the pending index agree, give the server back to the source
-- of the transfer in the database and in the cache, free its pending slot, and change no long-term
-- credential.
pub cancel-initiate_exclusive :
    (semver : Semver) (ienv : InitiateEnv) (env : RevertEnv)
    (server from to initiator now later : ℕ)
    → (t : ServerTransfer) (w : World) → Inv w
    → IsCalm env
    → (initiate_exclusive semver ienv server from to initiator now w).0 ≡ ok t
    → let r =
        cancel env t.id later (initiate_exclusive semver ienv server from to initiator now w).1 in
      (r.0 ≡ ok (some (terminated cancelled "" later t)))
      × (get server r.1.db_owner ≡ some from)
      × ((u : ℕ) → owner_of (get server r.1.servers) ≡ some u → u ≡ from)
      × (get server r.1.pending ≡ none)
      × (r.1.verified_handshakes ≡ w.verified_handshakes)
cancel-initiate_exclusive semver ienv env server from to initiator now later t w h calm e =
    let v = (initiate_exclusive semver ienv server from to initiator now w).1 in
    let o = initiate_exclusive-IsOpened semver ienv server from to initiator now t w e in
    let h' : Inv v = initiate_exclusive-Inv w h semver ienv server from to initiator now in
    let r =
      revert_transition-IsRolledBack env cancelled "" later to t v h' calm refl o.row o.status
        (rw o.server_id o.db_owner) in
    let b = r.1 in
    let z = (cancel env t.id later v).1 in
    (
      r.0,
      subst (λ s. get s z.db_owner ≡ some from) o.server_id (b.db_owner ∙ ap some o.from_user_id),
      subst (λ s. (u : ℕ) → owner_of (get s z.servers) ≡ some u → u ≡ from) o.server_id
          (λ u g. b.cached_owner u g ∙ o.from_user_id),
      subst (λ s. get s z.pending ≡ none) o.server_id b.free,
      b.verified ∙ o.verified,
    )
