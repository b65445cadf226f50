-- ===== src/Transfer/Invariant/Verifying.antt =====
-- The agent's proofs of what it holds keep the agreement of the database with the pending index.
use sakura_monitoring.Base.{
  ℕ, ◌≡◌, refl, sym, Bool, true, false, ◌&&◌, some, arith, ◌==◌, nat_eq, Option-cases, Bool-cases,
  inl, inr, subst,
}
use sakura_monitoring.Base.Map.{get}
use sakura_monitoring.Transfer.Types.{World, ServerTransfer, cas_row}
use sakura_monitoring.Transfer.Verify.{
  verify_result, settle_verified, mark_verified, mark_revert_delivered, ack_row, promote,
  promote_revert, acked, is_reverted, is_unacked, promotes_revert,
}
use sakura_monitoring.Transfer.Invariant.Consistent.{Inv, end-Consistent, rewrite-Consistent}

verify_result-Inv :
    (now : ℕ) (w : World) (t : ServerTransfer)
    → Inv w
    → get t.server_id w.pending ≡ some t
    → Inv (verify_result now t w (cas_row t.id (acked now) w.transfers)).1
unfolding cas_row promote
verify_result-Inv now w t h held =
    let (sid, row, st) = h.slot_row t.server_id t held in
    rw (row, cas_row, st)
      (end-Consistent h t (acked now t) row st refl refl (λ j ne. refl) (λ j ne. refl))

pub mark_verified-Inv :
    (fails : Bool) (server transfer now : ℕ) (w : World)
    → Inv w
    → Inv (mark_verified fails server transfer now w).1
unfolding mark_verified settle_verified
mark_verified-Inv fails server transfer now w h = elim (Option-cases (get server w.pending)) [
  | inl e ↦ rw (e, mark_verified) h
  | inr (t, held) ↦
      rw (held, mark_verified)
        (elim (Bool-cases (t.id == transfer)) [
          | inr other ↦ rw other h
          | inl same ↦ rw same (elim (Bool-cases fails) [
            | inl f ↦ rw f h
            | inr f ↦ rw f (
                verify_result-Inv now w t h
                  (subst (λ k. get k w.pending ≡ some t) (sym (h.slot_row server t held).0) held))
          ])
        ])
]

ack_row-Inv :
    (transfer now : ℕ) (w : World)
    → Inv w
    → Inv (record w { transfers = ack_row transfer now w.transfers })
unfolding ack_row
ack_row-Inv transfer now w h = elim (Option-cases (get transfer w.transfers)) [
  | inl e ↦ rw (e, ack_row) h
  | inr (t, found) ↦
      rw (found, ack_row)
        (elim (Bool-cases (is_reverted t.status && is_unacked t.acked_at)) [
          | inr other ↦ rw other h
          | inl hit ↦
              let same = (h.row_id transfer t found).0 in
              rw (hit, ← same)
                (rewrite-Consistent h t (record t { acked_at = some now; updated_at = now })
                  (subst (λ k. get k w.transfers ≡ some t) (sym same) found) (ground arith) refl
                  (ground arith))
        ])
]

pub mark_revert_delivered-Inv :
    (fails : Bool) (server transfer now : ℕ) (w : World)
    → Inv w
    → Inv (mark_revert_delivered fails server transfer now w).0
unfolding mark_revert_delivered promote_revert
mark_revert_delivered-Inv true server transfer now w h = h
mark_revert_delivered-Inv false server transfer now w h =
    elim (Option-cases (get server w.terminal_secret_recovery)) [
      | inl e ↦ rw (e, promote_revert) (ack_row-Inv transfer now w h)
      | inr (t, found) ↦
          rw (found, promote_revert)
            (elim (Bool-cases (promotes_revert transfer t)) [
              | inl e ↦ rw e (ack_row-Inv transfer now w h)
              | inr e ↦ rw e (ack_row-Inv transfer now w h)
            ])
    ]
