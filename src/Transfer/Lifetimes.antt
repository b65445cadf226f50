-- ===== src/Transfer/Lifetimes.antt =====
-- The agreement of the database and the pending index over the lifetimes of the dashboard: the
-- operations on transfers, the removal of servers, and restarts.
use sakura_monitoring.Base.{
  ℕ, ◌≡◌, sym, ◌∙◌, Bool, true, false, Option, none, some, List, [], ◌∷◌, arith, nat_eq, string_eq,
  Bool-cases, inl, inr,
}
use sakura_monitoring.Base.Map.{Map, get, get-delete, IsMap, insert-IsMap}
use sakura_monitoring.Transfer.Types.{World, Server, ServerTransfer}
use sakura_monitoring.Transfer.Deleted.{on_servers_deleted}
use sakura_monitoring.Transfer.Removal.{
  drop_server, delete_servers, delete_rows, batch_delete_server,
}
use sakura_monitoring.Transfer.Restart.{
  RestartEnv, query, is_pending, is_cached, index_pending, restart,
}
use sakura_monitoring.Transfer.Restart.Pending.{restart-pending}
use sakura_monitoring.Transfer.Steps.{Step}
use sakura_monitoring.Transfer.Invariant.Consistent.{Inv, Consistent, owner_of}
use sakura_monitoring.Transfer.Invariant.Settling.{on_servers_deleted-Inv}
use sakura_monitoring.Transfer.Invariant.Reaching.{Step-Inv}

delete_rows-get :
    (ids : List ℕ) (owners : Map ℕ ℕ) (s u : ℕ)
    → get s (delete_rows ids owners) ≡ some u
    → get s owners ≡ some u
unfolding delete_rows
delete_rows-get [] owners s u g = g
delete_rows-get (id ∷ ids) owners s u g =
    let g' = delete_rows-get ids _ s u g in ground (arith, get-delete id s owners)

-- Owners that are no longer stored or cached claim nothing.
fewer-Consistent :
    {rows : Map ℕ ServerTransfer} {next : ℕ} {owners owners' : Map ℕ ℕ}
    {servers servers' : Map ℕ Server} {slots : Map ℕ ServerTransfer}
    → ((s u : ℕ) → get s owners' ≡ some u → get s owners ≡ some u)
    → ((s u : ℕ) → owner_of (get s servers') ≡ some u → owner_of (get s servers) ≡ some u)
    → Consistent rows next owners servers slots
    → Consistent rows next owners' servers' slots
fewer-Consistent stored cached h = record {
  row_id = h.row_id;
  slot_row = h.slot_row;
  row_slot = h.row_slot;
  db_owner = λ s u t g o. h.db_owner s u t g (stored s u o);
  cached_owner = λ s u t g o. h.cached_owner s u t g (cached s u o);
  distinct = h.distinct;
  rows_distinct = h.rows_distinct;
}

drop_server-Inv : (o : Option Server) (id : ℕ) (w : World) → Inv w → Inv (drop_server o id w)
unfolding drop_server
drop_server-Inv none id w h = h
drop_server-Inv (some s) id w h =
    fewer-Consistent (λ j u g. g) (λ j u g. ground (arith, get-delete id j w.servers)) h

delete_servers-Inv : (ids : List ℕ) (w : World) → Inv w → Inv (delete_servers ids w)
unfolding delete_servers
delete_servers-Inv [] w h = h
delete_servers-Inv (id ∷ ids) w h =
    delete_servers-Inv ids _ (drop_server-Inv (get id w.servers) id w h)

pub batch_delete_server-Inv :
    (tx_fails : Bool) (lists casts : ℕ → Bool) (now : ℕ) (servers : List ℕ) (w : World)
    → Inv w
    → Inv (batch_delete_server tx_fails lists casts now servers w)
unfolding batch_delete_server
batch_delete_server-Inv true lists casts now servers w h = h
batch_delete_server-Inv false lists casts now servers w h =
    let unowned : World = record w { db_owner = delete_rows servers w.db_owner } in
    delete_servers-Inv servers (on_servers_deleted lists casts now servers unowned) (
      on_servers_deleted-Inv lists casts now servers unowned
        (fewer-Consistent (delete_rows-get servers w.db_owner) (λ j u g. g) h))

index_pending-IsMap :
    (servers : Map ℕ Server) (ts : List ServerTransfer) (m : Map ℕ ServerTransfer)
    → IsMap m
    → IsMap (index_pending servers ts m)
unfolding index_pending
index_pending-IsMap servers [] m d = d
index_pending-IsMap servers (t ∷ ts) m d =
    index_pending-IsMap servers ts _ (elim (Bool-cases (is_cached (get t.server_id servers))) [
      | inl e ↦ rw e (insert-IsMap t.server_id t m d)
      | inr e ↦ rw e d
    ])

-- The servers of the pending transfers are in the cache.
abbrev pub IsServed : World → Type 0
IsServed w =
    (j : ℕ) (t : ServerTransfer) → get j w.pending ≡ some t → is_cached (get j w.servers) ≡ true

pub restart-Inv :
    (env : RestartEnv) (now : ℕ) (w : World)
    → env.pending_fails ≡ false
    → IsServed w
    → Inv w
    → Inv (restart env now w)
unfolding restart
restart-Inv env now w works served h =
    let same : (s : ℕ) → get s (restart env now w).pending ≡ get s w.pending =
      λ s. restart-pending env now s w h works served in
    record {
      row_id = h.row_id;
      slot_row = λ s t g. h.slot_row s t (sym (same s) ∙ g);
      row_slot = λ i t g p. same t.server_id ∙ h.row_slot i t g p;
      db_owner = λ s u t g o. h.db_owner s u t (sym (same s) ∙ g) o;
      cached_owner = λ s u t g o. h.cached_owner s u t (sym (same s) ∙ g) o;
      distinct = index_pending-IsMap w.servers (query env.pending_fails is_pending w) [] tt;
      rows_distinct = h.rows_distinct;
    }

-- What the dashboard reaches from a state over any number of starts. At a restart the query of the pending
-- rows succeeds and their servers are in the cache; any other query of the restart may fail.
pub data Lifetimes (w : World) : World → Type 0 where
  begins : Lifetimes w w
  operates : {u v : World} → Lifetimes w u → Step u v → Lifetimes w v
  removes :
      {u : World} (tx_fails : Bool) (lists casts : ℕ → Bool) (now : ℕ) (servers : List ℕ)
      → Lifetimes w u
      → Lifetimes w (batch_delete_server tx_fails lists casts now servers u)
  restarts :
      {u : World} (env : RestartEnv) (now : ℕ)
      → env.pending_fails ≡ false
      → IsServed u
      → Lifetimes w u
      → Lifetimes w (restart env now u)

-- From a state in which the database and the pending index agree, every state that is reached by the
-- operations of `Step`, by the removal of servers and by restarts, in any order, with any failures of the
-- database and the agents, is one: a pending row is in its server's slot and nowhere else, a slot holds
-- its pending row, and the server of a pending transfer, while it is stored or cached, belongs to its
-- target there. A concurrent caller that wins an update settles its row, an agent that registers gets a
-- server with no pending transfer, and a restart counts where its query of the pending rows succeeds and
-- their servers are cached. Other writes of server rows are not among these operations.
pub Lifetimes-Inv : {w v : World} → Inv w → Lifetimes w v → Inv v
Lifetimes-Inv h begins = h
Lifetimes-Inv h (operates r s) = Step-Inv s (Lifetimes-Inv h r)
Lifetimes-Inv h (removes {u = u} f lists casts now servers r) =
    batch_delete_server-Inv f lists casts now servers u (Lifetimes-Inv h r)
Lifetimes-Inv h (restarts {u = u} env now works served r) =
    restart-Inv env now u works served (Lifetimes-Inv h r)
