-- ===== src/Transfer/Credentials.antt =====
-- Which secrets admit an agent while a transfer is pending, and once it is verified.
use sakura_monitoring.Base.{
  ℕ, ◌≡◌, ◌≢◌, refl, ap, Bool, true, false, none, some, String, arith, ◌==◌, ==_iff, beq_refl,
  str_eq, str_eq_iff, nat_eq, string_eq, Option-cases, Bool-cases, inl, inr,
}
use sakura_monitoring.Base.Map.{
  Map, get, insert, find, get-insert, IsMap, find_sound, find_complete, delete,
}
use sakura_monitoring.Transfer.Types.{World, Server, ServerTransfer, verified, pending, cas_row}
use sakura_monitoring.Transfer.Lookup.{live_delivery}
use sakura_monitoring.Transfer.Verify.{promoted, mark_verified, settle_verified, promote, acked}
use sakura_monitoring.Transfer.Auth.{known, tolerated, authorize_server, authorize_agent_for_uuid}
use sakura_monitoring.Transfer.Invariant.Consistent.{Inv, owner_of}

-- In a state in which the database and the pending index agree, while a transfer of a cached server is
-- pending and no rollback of it waits for delivery, the secret of a user other than user 0 that is
-- accepted for the server's UUID is accepted for that server, and it is the source's, not the target's.
pub authorize_agent_for_uuid-pending :
    (now user i cid : ℕ) (uuid : String) (s : Server) (t : ServerTransfer) (w : World)
    → Inv w
    → get uuid w.uuid_to_id ≡ some cid
    → get cid w.servers ≡ some s
    → get cid w.pending ≡ some t
    → live_delivery now cid w.revert_deliveries ≡ none
    → user ≢ 0
    → (authorize_agent_for_uuid now user uuid w).0 ≡ known i
    → (i ≡ cid) × (user ≡ t.from_user_id) × (user ≢ t.to_user_id)
unfolding authorize_agent_for_uuid authorize_server tolerated
authorize_agent_for_uuid-pending now user i cid uuid s t w h e f held quiet nz =
    elim (Bool-cases (user == 0)) [
      | inl z ↦ ground (arith, ==_iff user 0)
      | inr z ↦ elim (Bool-cases (s.user_id == user)) [
        | inl o ↦
            simp (authorize_agent_for_uuid, e, f, authorize_server, z, o, held) (λ g. ground arith)
        | inr o ↦ elim (Bool-cases (t.from_user_id == user)) [
          | inl b ↦
              simp
                (authorize_agent_for_uuid, e, f, authorize_server, z, o, held, tolerated, quiet, b)
                (λ g. ground (
                  arith,
                  ==_iff t.from_user_id user,
                  ==_iff s.user_id user,
                  h.cached_owner cid s.user_id t held (ap owner_of f),
                ))
          | inr b ↦
              simp
                (authorize_agent_for_uuid, e, f, authorize_server, z, o, held, tolerated, quiet, b)
                (λ g. ground arith)
        ]
      ]
    ]

-- A secret that only one server has, in the pending transfers, in the recovery of ended transfers and
-- among the long-term credentials, and that is not the empty string; and maps that hold a key once.
pub record IsOwnSecret (secret : String) (server : ℕ) (w : World) : Type 0 where
  pub given : secret ≢ ""
  pub pending :
      (k : ℕ) (t : ServerTransfer)
      → get k w.pending ≡ some t
      → t.handshake_secret ≡ secret
      → k ≡ server
  pub recovery :
      (k : ℕ) (t : ServerTransfer)
      → get k w.terminal_secret_recovery ≡ some t
      → k ≢ server
      → (t.handshake_secret ≢ secret) × (t.revert_handshake_secret ≢ secret)
  pub verified : (k : ℕ) → get k w.verified_handshakes ≡ some secret → k ≡ server
  pub recovery_distinct : IsMap w.terminal_secret_recovery
  pub verified_distinct : IsMap w.verified_handshakes

module _ {V : Type 0} where
  -- An entry that passes the test, where no other does, is the one that a loop finds.
  pub find_only :
      (p : ℕ → V → Bool) (m : Map ℕ V) (k : ℕ) (v : V)
      → IsMap m
      → get k m ≡ some v
      → p k v ≡ true
      → ((j : ℕ) (x : V) → get j m ≡ some x → p j x ≡ true → j ≡ k)
      → find p m ≡ some (k, v)
  find_only p m k v d g pass only = elim (Option-cases (find p m)) [
    | inl e ↦ ground (arith, find_complete p m k v e g)
    | inr ((j, x), e) ↦
        let s = find_sound p m j x d e in let same = only j x s.0 s.1 in ground (arith)
  ]

  -- A loop finds nothing where no entry passes the test.
  pub find-none :
      (p : ℕ → V → Bool) (m : Map ℕ V)
      → IsMap m
      → ((j : ℕ) (x : V) → get j m ≡ some x → p j x ≡ false)
      → find p m ≡ none
  find-none p m d never = elim (Option-cases (find p m)) [
    | inl e ↦ e
    | inr ((j, x), e) ↦ let s = find_sound p m j x d e in ground (arith, never j x s.0)
  ]

get-insert_same :
    (k : ℕ) (v : ServerTransfer) (m : Map ℕ ServerTransfer) → get k (insert k v m) ≡ some v
get-insert_same k v m = ground (arith, get-insert k k v m)

cas_row_live :
    (id : ℕ) (f : ServerTransfer → ServerTransfer) (rows : Map ℕ ServerTransfer)
    (t : ServerTransfer)
    → get id rows ≡ some t
    → t.status ≡ pending
    → cas_row id f rows ≡ (insert id (f t) rows, true)
unfolding cas_row
cas_row_live id f rows t g live = simp (cas_row, g, live) refl

-- The agent of a pending transfer proves that it holds the new credential: in a state in which the
-- database and the pending index agree, the update finds the row, the row and the result are verified,
-- the slot is freed, the secret becomes the server's long-term credential, what an earlier transfer
-- left for recovery is dropped, and the server stays with the target.
pub mark_verified-promotes :
    (now : ℕ) (t : ServerTransfer) (w : World)
    → Inv w
    → get t.server_id w.pending ≡ some t
    → t.handshake_secret ≢ ""
    → let r = mark_verified false t.server_id t.id now w in
      (r.0 ≡ promoted (record t { status = verified; acked_at = some now }))
      × (get t.id r.1.transfers ≡ some (acked now t))
      × (r.1.pending ≡ delete t.server_id w.pending)
      × (r.1.verified_handshakes ≡ insert t.server_id t.handshake_secret w.verified_handshakes)
      × (r.1.terminal_secret_recovery ≡ delete t.server_id w.terminal_secret_recovery)
      × (r.1.db_owner ≡ w.db_owner)
      × (r.1.uuid_to_id ≡ w.uuid_to_id)
unfolding mark_verified settle_verified promote cas_row
mark_verified-promotes now t w h held given =
    let (sid, row, st) = h.slot_row t.server_id t held in
    let live : cas_row t.id (acked now) w.transfers
        ≡ (insert t.id (acked now t) w.transfers, true) =
      cas_row_live t.id (acked now) w.transfers t row st in
    let given' : str_eq t.handshake_secret "" ≡ false =
      ground (arith, str_eq_iff t.handshake_secret "") in
    let same : t.id == t.id ≡ true = beq_refl t.id in
    let stored : get t.id (insert t.id (acked now t) w.transfers) ≡ some (acked now t) =
      get-insert_same t.id (acked now t) w.transfers in
    simp (mark_verified, held, same, settle_verified, live, promote, given')
      (refl, stored, refl, refl, refl, refl, refl)
