-- ===== src/Transfer/Removal.antt =====
-- `Delete` of upstream/nezha/service/singleton/server.go and `batchDeleteServer` of
-- upstream/nezha/cmd/dashboard/controller/server.go, from the point where the caller's permission was checked:
-- servers leave the database, their transfers are settled, and they leave the cache. The rows of groups and
-- traffic and the statistics of alerts are left out.
use sakura_monitoring.Base.{
  ℕ, Bool, List, [], ◌∷◌, if◌then◌else◌, Option, none, some, nat_eq, string_eq,
}
use sakura_monitoring.Base.Map.{Map, get, delete}
use sakura_monitoring.Transfer.Types.{World, Server}
use sakura_monitoring.Transfer.Deleted.{on_servers_deleted}

-- One round of the loop, with the entry that was found
unfoldable pub drop_server : Option Server → ℕ → World → World
drop_server none id w = w
drop_server (some s) id w = record w {
  uuid_to_id = delete s.uuid w.uuid_to_id;
  servers = delete id w.servers;
}

-- `ServerClass.Delete`
unfoldable pub delete_servers : List ℕ → World → World
unfolding drop_server
delete_servers [] w = w
delete_servers (id ∷ ids) w = delete_servers ids (drop_server (get id w.servers) id w)

-- `tx.Unscoped().Delete(&model.Server{}, "id in (?)", servers)`
unfoldable pub delete_rows : List ℕ → Map ℕ ℕ → Map ℕ ℕ
delete_rows [] owners = owners
delete_rows (id ∷ ids) owners = delete_rows ids (delete id owners)

unfoldable pub batch_delete_server : Bool → (lists casts : ℕ → Bool) → ℕ → List ℕ → World → World
unfolding delete_servers delete_rows on_servers_deleted
batch_delete_server tx_fails lists casts now servers w =
    if tx_fails
    then w
    else delete_servers servers (
        on_servers_deleted lists casts now servers
          (record w { db_owner = delete_rows servers w.db_owner }))
