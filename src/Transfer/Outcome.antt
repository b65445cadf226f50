-- ===== src/Transfer/Outcome.antt =====
-- What a caller of `Cancel`, `MarkFailed` or `MarkTimeout` gets: on a pending transfer, on a settled
-- one, when a concurrent caller wins, and on an error.
use sakura_monitoring.Base.{
  ℕ, ◌≡◌, refl, true, false, none, some, String, arith, nat_eq, Option-cases, Bool-cases, inl, inr,
}
use sakura_monitoring.Base.Map.{get, insert, get-delete}
use sakura_monitoring.Transfer.Types.{
  World, ServerTransfer, Status, Result, ok, err, TransferError, pending, is_terminal, update_owner,
}
use sakura_monitoring.Transfer.Revert.{
  RevertEnv, TxDone, terminated, stored, give_back, guarded_update, revert_tx, heal, finish,
  revert_transition,
}
use sakura_monitoring.Transfer.Invariant.Consistent.{Inv, delete_same-pending, delete_same-terminal}
use sakura_monitoring.Transfer.Rollback.{IsCalm, IsRolledBack, roll_back-IsRolledBack}

update_owner-some :
    (s to old : ℕ) (w : World)
    → get s w.db_owner ≡ some old
    → update_owner s to w.db_owner ≡ some (insert s to w.db_owner)
unfolding update_owner
update_owner-some s to old w e = ground arith

-- A pending transfer whose server has a row, with no failing database call and no rival, is rolled
-- back completely: the call returns the transfer, terminated, and leaves the state that
-- `IsRolledBack` describes, with the server back at its source.
pub revert_transition-IsRolledBack :
    (env : RevertEnv) (status : Status) (reason : String) (now owner : ℕ) (t : ServerTransfer)
    (w : World)
    → Inv w
    → IsCalm env
    → is_terminal status ≡ true
    → get t.id w.transfers ≡ some t
    → t.status ≡ pending
    → get t.server_id w.db_owner ≡ some owner
    → let r = revert_transition env status reason t.id now w in
      (r.0 ≡ ok (some (terminated status reason now t)))
      × IsRolledBack t (terminated status reason now t) (stored status reason now t) w r.1
unfolding revert_transition revert_tx guarded_update give_back
revert_transition-IsRolledBack env status reason now owner t w h calm over row st owned =
    simp
      (
        revert_transition,
        calm.first,
        row,
        revert_tx,
        calm.read,
        st,
        guarded_update,
        calm.cas,
        calm.alone,
        give_back,
        calm.owner,
        update_owner-some t.server_id t.from_user_id owner w owned,
        calm.commit,
      )
      (
        refl,
        roll_back-IsRolledBack env status reason now t w
            (insert t.server_id t.from_user_id w.db_owner) h (h.row_slot t.id t row st) over
            (update_owner-some t.server_id t.from_user_id owner w owned),
      )

-- A settled transfer is settled for good: while no database call fails, the call returns no transfer
-- and the state stays as it is, also where the server has a newer pending transfer.
pub revert_transition-settled :
    (env : RevertEnv) (status : Status) (reason : String) (now : ℕ) (t : ServerTransfer) (w : World)
    → Inv w
    → env.first_fails ≡ false
    → env.read_fails ≡ false
    → env.commit_fails ≡ false
    → get t.id w.transfers ≡ some t
    → is_terminal t.status ≡ true
    → revert_transition env status reason t.id now w ≡ (ok none, w)
unfolding revert_transition revert_tx heal
revert_transition-settled env status reason now t w h f r c row over =
    simp (revert_transition, f, row, revert_tx, r, over, c, heal, delete_same-terminal h t row over)
      refl

finish-error :
    (env : RevertEnv) (now : ℕ) (w : World) (r : Result TxDone) (e : TransferError)
    → (finish env now w r).0 ≡ err e
    → (finish env now w r).1 ≡ w
finish-error env now w (err x) e h = refl
finish-error env now w (ok done) e h = elim (Bool-cases done.transitioned) [
  | inl b ↦ ground arith
  | inr b ↦ ground arith
]

-- A call that returns an error leaves the state as it was.
pub revert_transition-error :
    (env : RevertEnv) (status : Status) (reason : String) (id now : ℕ) (w : World)
    (e : TransferError)
    → (revert_transition env status reason id now w).0 ≡ err e
    → (revert_transition env status reason id now w).1 ≡ w
unfolding revert_transition
revert_transition-error env status reason id now w e h = elim (Bool-cases env.first_fails) [
  | inl f ↦ simp (f, revert_transition) refl
  | inr f ↦ elim (Option-cases (get id w.transfers)) [
    | inl g ↦ simp (f, g, revert_transition) refl
    | inr (t, g) ↦
        let step : revert_transition env status reason id now w
            ≡ finish env now w (revert_tx env status reason now t w) =
          simp (f, g, revert_transition) refl in
        rw step (finish-error env now w (revert_tx env status reason now t w) e (rw (← step) h))
  ]
]

-- Where a concurrent caller settles the row first and no database call fails, the call returns no
-- transfer, frees the pending slot, and leaves the owners, the streams, the tasks and the events
-- alone.
pub revert_transition-rival :
    (env : RevertEnv) (status other : Status) (reason : String) (now : ℕ) (t : ServerTransfer)
    (w : World)
    → Inv w
    → env.first_fails ≡ false
    → env.read_fails ≡ false
    → env.cas_fails ≡ false
    → env.reread_fails ≡ false
    → env.commit_fails ≡ false
    → env.rival ≡ some other
    → is_terminal other ≡ true
    → get t.id w.transfers ≡ some t
    → t.status ≡ pending
    → let r = revert_transition env status reason t.id now w in
      (r.0 ≡ ok none)
      × (get t.server_id r.1.pending ≡ none)
      × (r.1.db_owner ≡ w.db_owner)
      × (r.1.servers ≡ w.servers)
      × (r.1.revoked ≡ w.revoked)
      × (r.1.sent ≡ w.sent)
      × (r.1.events ≡ w.events)
unfolding revert_transition revert_tx guarded_update heal
revert_transition-rival env status other reason now t w h f r c rr cm rival over row st =
    simp
      (
        revert_transition,
        f,
        row,
        revert_tx,
        r,
        st,
        guarded_update,
        c,
        rival,
        rr,
        cm,
        heal,
        over,
        delete_same-pending h t row st,
      )
      (
        refl,
        ground (arith, get-delete t.server_id t.server_id w.pending),
        refl,
        refl,
        refl,
        refl,
        refl,
      )
