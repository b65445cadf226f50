-- ===== src/Transfer/Invariant/Begin.antt =====
-- `own` and `InitiateExclusive` keep the agreement of the database with the pending index.
use sakura_monitoring.Base.{
  ℕ, suc, ◌≡◌, refl, none, some, arith, ◌==◌, if◌then◌else◌, nat_eq, Option-cases, Bool-cases, inl,
  inr,
}
use mathlib.Core.Option
use sakura_monitoring.Base.Map.{Map, get, insert, get-insert}
use sakura_monitoring.Transfer.Types.{World, Server, ServerTransfer, pending, own, update_owner}
use sakura_monitoring.Transfer.Lookup.{has_pending}
use sakura_monitoring.Transfer.Initiate.{
  Semver, InitiateEnv, claim_owner, initiate, new_transfer, register, settle, initiate_exclusive,
  too_old,
}
use sakura_monitoring.Transfer.Invariant.Consistent.{Inv, SameOff, owner_of, begin-Consistent}

-- `own` changes the owner of one cached server.
owner_of-own :
    (id uid : ℕ) (servers : Map ℕ Server) (j : ℕ)
    → owner_of (get j (own id uid servers))
      ≡ (if id == j then Option.map (λ _. uid) (get j servers) else owner_of (get j servers))
unfolding own
owner_of-own id uid servers j = elim (Option-cases (get id servers)) [
  | inl absent ↦ rw (absent, own) (ground arith)
  | inr (v, found) ↦
      rw (found, own) (ground (arith, get-insert id j (record v { user_id = uid }) servers))
]

pub own-SameOff : (id uid : ℕ) (servers : Map ℕ Server) → SameOff id servers (own id uid servers)
own-SameOff id uid servers j ne = ground (arith, owner_of-own id uid servers j)

pub own_owner :
    (id uid : ℕ) (servers : Map ℕ Server) (u : ℕ)
    → owner_of (get id (own id uid servers)) ≡ some u
    → u ≡ uid
own_owner id uid servers u h = ground (arith, owner_of-own id uid servers id)

pub update_owner-others :
    (s uid : ℕ) (owners owners' : Map ℕ ℕ)
    → update_owner s uid owners ≡ some owners'
    → owners' ≡ insert s uid owners
unfolding update_owner
update_owner-others s uid owners owners' h = ground arith

module _ (w : World) (h : Inv w) where
  register-Inv :
      (t : ServerTransfer) (owners : Map ℕ ℕ)
      → get t.server_id w.pending ≡ none
      → t.id ≡ w.next_id
      → t.status ≡ pending
      → update_owner t.server_id t.to_user_id w.db_owner ≡ some owners
      → Inv (
          register t (record w {
            transfers = insert t.id t w.transfers;
            next_id = suc w.next_id;
            db_owner = owners;
          }))
  unfolding register
  register-Inv t owners free fresh st e =
      rw (update_owner-others t.server_id t.to_user_id w.db_owner owners e) (
        begin-Consistent h t t.to_user_id free fresh st refl
          (own-SameOff t.server_id t.to_user_id w.servers)
          (own_owner t.server_id t.to_user_id w.servers))

  claim_owner-Inv :
      (env : InitiateEnv) (t : ServerTransfer)
      → get t.server_id w.pending ≡ none
      → t.id ≡ w.next_id
      → t.status ≡ pending
      → Inv (settle w (claim_owner env t w)).1
  unfolding claim_owner
  claim_owner-Inv env t free fresh st = elim (Bool-cases env.owner_fails) [
    | inl e ↦ rw (e, claim_owner) h
    | inr e ↦
        rw (e, claim_owner)
          (elim (Option-cases (update_owner t.server_id t.to_user_id w.db_owner)) [
            | inl none_owned ↦ rw (none_owned) h
            | inr (owners, owned) ↦ rw owned (elim (Bool-cases env.commit_fails) [
              | inl c ↦ rw c h
              | inr c ↦ rw c (register-Inv t owners free fresh st owned)
            ])
          ])
  ]

  initiate-Inv :
      (env : InitiateEnv) (server from to initiator now : ℕ)
      → get server w.pending ≡ none
      → Inv (settle w (initiate env server from to initiator now w)).1
  unfolding initiate
  initiate-Inv env server from to initiator now free = elim (Option-cases env.handshake) [
    | inl e ↦ rw e h
    | inr (x, e) ↦ rw e (elim (Option-cases env.revert_handshake) [
      | inl f ↦ rw f h
      | inr (y, f) ↦ rw f (elim (Bool-cases env.create_fails) [
        | inl c ↦ rw c h
        | inr c ↦
            rw c
              (claim_owner-Inv env (new_transfer server from to initiator now x y w) free refl refl)
      ])
    ])
  ]

  pub initiate_exclusive-Inv :
      (semver : Semver) (env : InitiateEnv) (server from to initiator now : ℕ)
      → Inv (initiate_exclusive semver env server from to initiator now w).1
  unfolding initiate_exclusive
  initiate_exclusive-Inv semver env server from to initiator now =
      elim (Bool-cases (too_old semver server w)) [
        | inl e ↦ rw e h
        | inr e ↦ rw e (elim (Option-cases (get server w.pending)) [
          | inl free ↦ rw (free, has_pending) (initiate-Inv env server from to initiator now free)
          | inr (t, held) ↦ rw (held, has_pending) h
        ])
      ]
