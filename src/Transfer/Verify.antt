-- ===== src/Transfer/Verify.antt =====
-- `MarkVerified` and `MarkRevertDelivered`: the agent has proved which credential it holds.
use sakura_monitoring.Base.{
  ℕ, Bool, true, false, not, ◌&&◌, Option, none, some, ◌==◌, str_eq, if◌then◌else◌, nat_eq,
}
use sakura_monitoring.Base.Map.{Map, get, insert, delete}
use sakura_monitoring.Transfer.Types.{
  World, ServerTransfer, Status, verified, pending, failed, timed_out, cancelled, broadcast,
  cas_row, delete_same,
}

-- The three return shapes of `MarkVerified`.
pub data Marked : Type 0 where
  promoted : ServerTransfer → Marked
  unchanged broken : Marked

-- The database's answer: the update fails, or it is made.
abbrev pub acked : ℕ → ServerTransfer → ServerTransfer
acked now t = record t { status = verified; acked_at = some now; updated_at = now }

-- The fields that `MarkVerified` writes under `c.mu` when its update found the row.
unfoldable pub promote : ℕ → ServerTransfer → World → World
promote now t w = record w {
  pending = delete t.server_id w.pending;
  verified_handshakes =
      if str_eq t.handshake_secret ""
      then w.verified_handshakes
      else insert t.server_id t.handshake_secret w.verified_handshakes;
  terminal_secret_recovery = delete t.server_id w.terminal_secret_recovery;
}

abbrev pub verify_result : ℕ → ServerTransfer → World → Map ℕ ServerTransfer × Bool → Marked × World
verify_result now t w (rows, false) =
    (unchanged, record w { pending = delete t.server_id w.pending })
verify_result now t w (rows, true) =
    let t' = record t { status = verified; acked_at = some now } in
    (promoted t', broadcast t' (promote now t (record w { transfers = rows })))

unfoldable pub settle_verified : Bool → ℕ → ServerTransfer → World → Marked × World
unfolding cas_row promote
settle_verified fails now t w =
    if fails then (broken, w) else verify_result now t w (cas_row t.id (acked now) w.transfers)

-- `MarkVerified`, one step under `c.mu`
unfoldable pub mark_verified : Bool → (server transfer now : ℕ) → World → Marked × World
unfolding settle_verified
mark_verified fails server transfer now w = elim (get server w.pending) [
  | none ↦ (unchanged, w)
  | some t ↦ if t.id == transfer then settle_verified fails now t w else (unchanged, w)
]

abbrev pub is_reverted : Status → Bool
is_reverted pending = false
is_reverted verified = false
is_reverted failed = true
is_reverted timed_out = true
is_reverted cancelled = true

abbrev pub is_unacked : Option ℕ → Bool
is_unacked none = true
is_unacked (some at) = false

-- The update of `MarkRevertDelivered`, which does nothing where its WHERE clause finds no row.
unfoldable pub ack_row : ℕ → ℕ → Map ℕ ServerTransfer → Map ℕ ServerTransfer
ack_row transfer now rows = elim (get transfer rows) [
  | none ↦ rows
  | some t ↦
      if is_reverted t.status && is_unacked t.acked_at
      then insert transfer (record t { acked_at = some now; updated_at = now }) rows
      else rows
]

abbrev pub promotes_revert : ℕ → ServerTransfer → Bool
promotes_revert transfer t = t.id == transfer && not (str_eq t.revert_handshake_secret "")

-- The revert secret becomes the server's long-term credential, and its recovery slot goes.
unfoldable pub promote_revert : (server transfer : ℕ) → World → World
promote_revert server transfer w = elim (get server w.terminal_secret_recovery) [
  | none ↦ w
  | some t ↦
      if promotes_revert transfer t
      then record w {
        verified_handshakes = insert server t.revert_handshake_secret w.verified_handshakes;
        terminal_secret_recovery = delete server w.terminal_secret_recovery;
      }
      else w
]

-- `MarkRevertDelivered`; the second field is whether the update failed.
unfoldable pub mark_revert_delivered : Bool → (server transfer now : ℕ) → World → World × Bool
unfolding ack_row promote_revert delete_same
mark_revert_delivered fails server transfer now w =
    if fails
    then (w, true)
    else let w' =
        promote_revert server transfer
          (record w { transfers = ack_row transfer now w.transfers }) in
      (record w' { revert_deliveries = delete_same server transfer w'.revert_deliveries }, false)
