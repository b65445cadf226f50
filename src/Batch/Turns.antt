-- ===== src/Batch/Turns.antt =====
-- One turn of the loop of `batchMoveServer`.
use sakura_monitoring.Base.{
  ℕ, ◌≡◌, ◌≢◌, ◌⊎◌, inl, inr, refl, true, false, not, ◌&&◌, ◌==◌, nat_eq, arith, Bool-cases,
  Option-cases,
}
use sakura_monitoring.Base.Map.{get}
use sakura_monitoring.Transfer.Types.{
  World, Server, ServerTransfer, Result, ok, err, TransferError, already_transferring,
  agent_too_old, no_randomness, db_error, not_found, owner_rows, not_terminal, target_missing,
  already_owner,
}
use sakura_monitoring.Transfer.Initiate.{Semver, initiate_exclusive}
use sakura_monitoring.Transfer.Steps.{SettledRival}
use sakura_monitoring.Transfer.Invariant.Consistent.{Inv}
use sakura_monitoring.Transfer.Invariant.Begin.{initiate_exclusive-Inv}
use sakura_monitoring.Transfer.Invariant.Delivery.{push_if_online-Inv}
use sakura_monitoring.Batch.{
  Caller, pat_allows_server, MoveStatus, is_pending, server_not_found, same_owner, MoveResult,
  refusal, MoveEnv, refused_initiation, finish_move, move_known, move_one,
}

-- What the loop has tested when it initiates a transfer.
record IsMovable (c : Caller) (to server : ℕ) (s : Server) : Type 0 where
  allowed : pat_allows_server c server ≡ true
  entitled : (c.is_admin ≡ true) ⊎ (s.user_id ≡ c.uid)
  other : s.user_id ≢ to

module _ (semver : Semver) (env : MoveEnv) (c : Caller) (to server : ℕ) (w : World) where
  -- A turn of the loop refuses and changes nothing, or initiates.
  move_one-cases :
      (P : MoveResult × World → Type 0)
      → ((status : MoveStatus) → status ≢ is_pending → P (refusal server status, w))
      → ((s : Server)
          → IsMovable c to server s
          → P (
              finish_move semver env server
                (initiate_exclusive semver env.initiation server s.user_id to c.uid env.now w)))
      → P (move_one semver env c to server w)
  unfolding move_one move_known
  move_one-cases P refuse go = elim (Option-cases (get server w.servers)) [
    | inl e ↦ rw (move_one, e) (refuse server_not_found (λ x. cc))
    | inr (s, e) ↦
        rw (move_one, e)
          (elim (Bool-cases (pat_allows_server c server)) [
            | inr a ↦ rw (move_known, a) (refuse server_not_found (λ x. cc))
            | inl a ↦ elim (Bool-cases (not c.is_admin && not (s.user_id == c.uid))) [
              | inl b ↦ rw (move_known, a, b) (refuse server_not_found (λ x. cc))
              | inr b ↦ elim (Bool-cases (s.user_id == to)) [
                | inl d ↦ rw (move_known, a, b, d) (refuse same_owner (λ x. cc))
                | inr d ↦
                    let movable : IsMovable c to server s = record {
                      allowed = a;
                      entitled = ground (arith, b);
                      other = ground (arith, d);
                    } in
                    rw (move_known, a, b, d) (go s movable)
              ]
            ]
          ])
  ]

-- The answer for one server: where it reports a transfer, the caller's token allows the server, and the
-- caller is an administrator.
pub record IsAnswer (c : Caller) (to server : ℕ) (r : MoveResult) : Type 0 where
  pub server_id : r.server_id ≡ server
  pub allowed : r.status ≡ is_pending → pat_allows_server c server ≡ true
  pub by_admin : r.status ≡ is_pending → c.is_admin ≡ true

refused-IsAnswer :
    (c : Caller) (to server : ℕ) (e : TransferError)
    → IsAnswer c to server (refused_initiation server e)
refused-IsAnswer c to server already_transferring = record {
  server_id = refl;
  allowed = λ x. cc;
  by_admin = λ x. cc;
}
refused-IsAnswer c to server agent_too_old = record {
  server_id = refl;
  allowed = λ x. cc;
  by_admin = λ x. cc;
}
refused-IsAnswer c to server no_randomness = record {
  server_id = refl;
  allowed = λ x. cc;
  by_admin = λ x. cc;
}
refused-IsAnswer c to server db_error = record {
  server_id = refl;
  allowed = λ x. cc;
  by_admin = λ x. cc;
}
refused-IsAnswer c to server not_found = record {
  server_id = refl;
  allowed = λ x. cc;
  by_admin = λ x. cc;
}
refused-IsAnswer c to server owner_rows = record {
  server_id = refl;
  allowed = λ x. cc;
  by_admin = λ x. cc;
}
refused-IsAnswer c to server not_terminal = record {
  server_id = refl;
  allowed = λ x. cc;
  by_admin = λ x. cc;
}
refused-IsAnswer c to server target_missing = record {
  server_id = refl;
  allowed = λ x. cc;
  by_admin = λ x. cc;
}
refused-IsAnswer c to server already_owner = record {
  server_id = refl;
  allowed = λ x. cc;
  by_admin = λ x. cc;
}

finish_move-IsAnswer :
    (semver : Semver) (env : MoveEnv) (c : Caller) (to server : ℕ) (s : Server)
    → (c.is_admin ≡ true) ⊎ (to ≡ c.uid)
    → IsMovable c to server s
    → (r : Result ServerTransfer × World) → IsAnswer c to server (finish_move semver env server r).0
unfolding finish_move
finish_move-IsAnswer semver env c to server s k m (err e, w) = refused-IsAnswer c to server e
finish_move-IsAnswer semver env c to server s k m (ok t, w) = record {
  server_id = refl;
  allowed = λ x. m.allowed;
  by_admin = λ x. ground (arith, k, m.entitled, m.other);
}

pub move_one-IsAnswer :
    (semver : Semver) (env : MoveEnv) (c : Caller) (to server : ℕ) (w : World)
    → (c.is_admin ≡ true) ⊎ (to ≡ c.uid)
    → IsAnswer c to server (move_one semver env c to server w).0
move_one-IsAnswer semver env c to server w k =
    move_one-cases semver env c to server w (λ r. IsAnswer c to server r.0)
      (λ status n. record {
        server_id = refl;
        allowed = λ x. elim (n x) [ ];
        by_admin = λ x. elim (n x) [ ];
      })
      (λ s m.
        finish_move-IsAnswer semver env c to server s k m
          (initiate_exclusive semver env.initiation server s.user_id to c.uid env.now w))

-- Who is no administrator and asks for servers of their own gets none moved.
pub move_one-member :
    (semver : Semver) (env : MoveEnv) (c : Caller) (to server : ℕ) (w : World)
    → c.is_admin ≡ false
    → to ≡ c.uid
    → (move_one semver env c to server w).1 ≡ w
move_one-member semver env c to server w n e =
    move_one-cases semver env c to server w (λ r. r.1 ≡ w) (λ status k. refl)
      (λ s m. let absurd : ⊥ = ground (arith, m.entitled, m.other, n, e) in elim absurd [ ])

finish_move-Inv :
    (semver : Semver) (env : MoveEnv) (server : ℕ) (r : Result ServerTransfer × World)
    → SettledRival env.push.rival
    → Inv r.1
    → Inv (finish_move semver env server r).1
unfolding finish_move
finish_move-Inv semver env server (err e, w) rival h = h
finish_move-Inv semver env server (ok t, w) rival h =
    push_if_online-Inv env.push env.now rival semver t w h

pub move_one-Inv :
    (semver : Semver) (env : MoveEnv) (c : Caller) (to server : ℕ) (w : World)
    → SettledRival env.push.rival
    → Inv w
    → Inv (move_one semver env c to server w).1
move_one-Inv semver env c to server w rival h =
    move_one-cases semver env c to server w (λ r. Inv r.1) (λ status k. h)
      (λ s m.
        finish_move-Inv semver env server
          (initiate_exclusive semver env.initiation server s.user_id to c.uid env.now w) rival
          (initiate_exclusive-Inv w h semver env.initiation server s.user_id to c.uid env.now))
