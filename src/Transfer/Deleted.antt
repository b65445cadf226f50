-- ===== src/Transfer/Deleted.antt =====
-- `OnServersDeleted` and `OnUsersDeleted`: pending transfers are settled when a server or a user
-- goes, with the owner of the server left alone.
use sakura_monitoring.Base.{
  ℕ, Bool, not, ◌&&◌, ◌||◌, String, List, [], ◌∷◌, ◌++◌, ◌==◌, if◌then◌else◌, nat_eq, any,
}
use sakura_monitoring.Base.Map.{Map, delete}
use sakura_monitoring.Transfer.Types.{
  World, ServerTransfer, cancelled, is_terminal, revoke_streams, broadcast, cas_row, delete_same,
}
use sakura_monitoring.Transfer.Revert.{terminated}

-- `DB.Where(...).Find(&pending)`: the pending rows that pass a test.
unfoldable pub list_pending : (ServerTransfer → Bool) → Map ℕ ServerTransfer → List ServerTransfer
list_pending p [] = []
list_pending p ((id, t) ∷ rows) =
    let rest = list_pending p rows in if not (is_terminal t.status) && p t then t ∷ rest else rest

-- One round of the loop over the listed rows: the rows after it, and the transfers it settled.
abbrev pub cancel_row :
    Bool
    → String
    → ℕ
    → ServerTransfer
    → Map ℕ ServerTransfer
    → Map ℕ ServerTransfer × List ServerTransfer
cancel_row fails reason now t rows =
    if fails
    then (rows, [])
    else let (rows', found) = cas_row t.id (terminated cancelled reason now) rows in
      (rows', if found then terminated cancelled reason now t ∷ [] else [])

-- The loop; the environment says for which ids the update fails.
unfoldable pub cancel_rows :
    (ℕ → Bool)
    → String
    → ℕ
    → List ServerTransfer
    → Map ℕ ServerTransfer
    → Map ℕ ServerTransfer × List ServerTransfer
unfolding cas_row
cancel_rows fails reason now [] rows = (rows, [])
cancel_rows fails reason now (t ∷ ts) rows =
    let (rows', done) = cancel_row (fails t.id) reason now t rows in
    let (rows'', more) = cancel_rows fails reason now ts rows' in (rows'', done ++ more)

-- The outer loop of `OnServersDeleted`; a list that fails skips its server.
unfoldable pub cancel_servers :
    (lists casts : ℕ → Bool)
    → ℕ
    → List ℕ
    → Map ℕ ServerTransfer
    → Map ℕ ServerTransfer × List ServerTransfer
unfolding list_pending cancel_rows
cancel_servers lists casts now [] rows = (rows, [])
cancel_servers lists casts now (s ∷ ss) rows =
    let listed = if lists s then [] else list_pending (λ t. t.server_id == s) rows in
    let (rows', done) = cancel_rows casts "server deleted" now listed rows in
    let (rows'', more) = cancel_servers lists casts now ss rows' in (rows'', done ++ more)

-- The slots of the two maps that hold a transfer which was settled.
unfoldable pub drop_terminated : List ServerTransfer → World → World
unfolding delete_same
drop_terminated [] w = w
drop_terminated (t ∷ ts) w = drop_terminated ts (record w {
  pending = delete_same t.server_id t.id w.pending;
  revert_deliveries = delete_same t.server_id t.id w.revert_deliveries;
})

unfoldable pub drop_recovery_of : List ℕ → Map ℕ ServerTransfer → Map ℕ ServerTransfer
drop_recovery_of [] m = m
drop_recovery_of (s ∷ ss) m = drop_recovery_of ss (delete s m)

unfoldable pub drop_recovery : List ServerTransfer → Map ℕ ServerTransfer → Map ℕ ServerTransfer
unfolding delete_same
drop_recovery [] m = m
drop_recovery (t ∷ ts) m = drop_recovery ts (delete_same t.server_id t.id m)

unfoldable pub revoke_all : List ℕ → World → World
revoke_all [] w = w
revoke_all (s ∷ ss) w = revoke_all ss (revoke_streams s w)

unfoldable pub broadcast_all : List ServerTransfer → World → World
broadcast_all [] w = w
broadcast_all (t ∷ ts) w = broadcast_all ts (broadcast t w)

unfoldable pub on_servers_deleted : (lists casts : ℕ → Bool) → ℕ → List ℕ → World → World
unfolding cancel_servers drop_terminated drop_recovery_of revoke_all broadcast_all
on_servers_deleted lists casts now servers w =
    let (rows, done) = cancel_servers lists casts now servers w.transfers in
    let w' = drop_terminated done (record w { transfers = rows }) in
    broadcast_all done (
      revoke_all servers (record w' {
        terminal_secret_recovery = drop_recovery_of servers w'.terminal_secret_recovery;
      }))

abbrev pub involves : List ℕ → ServerTransfer → Bool
involves users t = any (λ u. u == t.from_user_id || u == t.to_user_id) users

-- The early returns, on no ids and on a list that fails, change nothing.
unfoldable pub on_users_deleted : Bool → (ℕ → Bool) → ℕ → List ℕ → World → World
unfolding list_pending cancel_rows drop_terminated drop_recovery broadcast_all
on_users_deleted list_fails casts now users w =
    if list_fails
    then w
    else let (rows, done) =
        cancel_rows casts "user deleted" now (list_pending (involves users) w.transfers)
          w.transfers in
      let w' = drop_terminated done (record w { transfers = rows }) in
      broadcast_all done
        (record w' { terminal_secret_recovery = drop_recovery done w'.terminal_secret_recovery })
