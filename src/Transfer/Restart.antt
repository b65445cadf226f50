-- ===== src/Transfer/Restart.antt =====
-- `NewServerTransferClass`: the maps as they are rebuilt from the database when the dashboard starts.
-- A query that fails gives no rows. The database returns rows in the order of the list.
pub mod Pending
pub mod Entries
pub mod Recovery
pub mod Sorting
pub mod Newest
use sakura_monitoring.Base.{
  ℕ, Bool, true, false, not, ◌||◌, ◌&&◌, Option, none, some, String, List, [], ◌∷◌, ◌++◌, ltb, leb,
  ◌==◌, str_eq, if◌then◌else◌, nat_eq,
}
use sakura_monitoring.Base.Map.{Map, empty, get, insert}
use sakura_monitoring.Transfer.Types.{
  World, Server, ServerTransfer, Status, pending, verified, failed, timed_out, cancelled,
  is_terminal, is_older, recovery_window,
}
use sakura_monitoring.Transfer.Verify.{is_reverted, is_unacked}

-- Which of the four queries fail.
pub record RestartEnv : Type 0 where
  pub pending_fails : Bool
  pub reverted_fails : Bool
  pub verified_fails : Bool
  pub acked_fails : Bool

-- `DB.Where(...).Find(...)`
unfoldable pub select : (ServerTransfer → Bool) → Map ℕ ServerTransfer → List ServerTransfer
select p [] = []
select p ((id, t) ∷ rows) = let rest = select p rows in if p t then t ∷ rest else rest

abbrev pub query : Bool → (ServerTransfer → Bool) → World → List ServerTransfer
query fails p w = if fails then [] else select p w.transfers

abbrev pub is_cached : Option Server → Bool
is_cached none = false
is_cached (some s) = true

-- The first loop: orphans are dropped.
unfoldable pub index_pending :
    Map ℕ Server → List ServerTransfer → Map ℕ ServerTransfer → Map ℕ ServerTransfer
index_pending servers [] m = m
index_pending servers (t ∷ ts) m =
    index_pending servers ts
      (if is_cached (get t.server_id servers) then insert t.server_id t m else m)

-- `status IN (...) AND updated_at >= ? AND acked_at IS NULL`
abbrev pub awaits_delivery : ℕ → ServerTransfer → Bool
awaits_delivery now t =
    is_reverted t.status
    && (not (is_older recovery_window now t.updated_at) && is_unacked t.acked_at)

-- `Order("updated_at ASC")`
unfoldable pub place_oldest : ServerTransfer → List ServerTransfer → List ServerTransfer
place_oldest t [] = t ∷ []
place_oldest t (u ∷ us) =
    let rest = place_oldest t us in if leb t.updated_at u.updated_at then t ∷ u ∷ us else u ∷ rest

unfoldable pub oldest_first : List ServerTransfer → List ServerTransfer
unfolding place_oldest
oldest_first [] = []
oldest_first (t ∷ ts) = place_oldest t (oldest_first ts)

abbrev pub is_owned : ℕ → Option Server → Bool
is_owned user none = false
is_owned user (some s) = s.user_id == user

-- The second loop; the code fills both maps with the same entries.
unfoldable pub index_reverted :
    Map ℕ Server → List ServerTransfer → Map ℕ ServerTransfer → Map ℕ ServerTransfer
index_reverted servers [] m = m
index_reverted servers (t ∷ ts) m =
    index_reverted servers ts
      (if is_owned t.from_user_id (get t.server_id servers) then insert t.server_id t m else m)

-- `credCandidate`
pub record Candidate : Type 0 where
  pub server_id : ℕ
  pub transfer_id : ℕ
  pub secret : String
  pub acked_at : ℕ
  pub is_revert : Bool
  pub to_user_id : ℕ

-- One row of the third or the fourth query: none where the secret or the time is missing.
abbrev pub candidate : Bool → String → ℕ → ServerTransfer → List Candidate
candidate is_revert secret user t = if str_eq secret "" then [] else elim t.acked_at [
  | none ↦ []
  | some at ↦
      record {
        server_id = t.server_id;
        transfer_id = t.id;
        secret = secret;
        acked_at = at;
        is_revert = is_revert;
        to_user_id = user;
      }
      ∷ []
]

unfoldable pub forward_candidates : List ServerTransfer → List Candidate
forward_candidates [] = []
forward_candidates (t ∷ ts) =
    candidate false t.handshake_secret t.to_user_id t ++ forward_candidates ts

unfoldable pub revert_candidates : List ServerTransfer → List Candidate
revert_candidates [] = []
revert_candidates (t ∷ ts) =
    candidate true t.revert_handshake_secret t.from_user_id t ++ revert_candidates ts

-- The order of the sort: newest first, then the greater transfer id.
abbrev pub is_before : Candidate → Candidate → Bool
is_before a b =
    if a.acked_at == b.acked_at then ltb b.transfer_id a.transfer_id else ltb b.acked_at a.acked_at

-- `sort.SliceStable`
unfoldable pub place_newest : Candidate → List Candidate → List Candidate
place_newest c [] = c ∷ []
place_newest c (d ∷ ds) =
    let rest = place_newest c ds in if is_before d c then d ∷ rest else c ∷ d ∷ ds

unfoldable pub newest_first : List Candidate → List Candidate
unfolding place_newest
newest_first [] = []
newest_first (c ∷ cs) = place_newest c (newest_first cs)

abbrev pub comes_from : ℕ → Option ServerTransfer → Bool
comes_from user none = false
comes_from user (some t) = t.from_user_id == user

-- Whether the server's owner, or the pending transfer, speaks for a candidate.
unfoldable pub is_eligible : Map ℕ Server → Map ℕ ServerTransfer → Candidate → Bool
is_eligible servers slots c = elim (get c.server_id servers) [
  | none ↦ false
  | some s ↦
      if s.user_id == c.to_user_id
      then true
      else not c.is_revert && comes_from c.to_user_id (get c.server_id slots)
]

abbrev pub is_free : Option String → Bool
is_free none = true
is_free (some x) = false

-- The last loop: the first candidate of a server that is eligible wins.
unfoldable pub index_verified :
    Map ℕ Server → Map ℕ ServerTransfer → List Candidate → Map ℕ String → Map ℕ String
unfolding is_eligible
index_verified servers slots [] m = m
index_verified servers slots (c ∷ cs) m = index_verified servers slots cs (
    if is_free (get c.server_id m) && is_eligible servers slots c
    then insert c.server_id c.secret m
    else m)

abbrev pub is_pending : ServerTransfer → Bool
is_pending t = not (is_terminal t.status)

abbrev pub is_verified : Status → Bool
is_verified pending = false
is_verified verified = true
is_verified failed = false
is_verified timed_out = false
is_verified cancelled = false

abbrev pub reverted_rows : RestartEnv → ℕ → World → List ServerTransfer
reverted_rows env now w = oldest_first (query env.reverted_fails (awaits_delivery now) w)

abbrev pub candidates : RestartEnv → World → List Candidate
candidates env w =
    forward_candidates
      (query env.verified_fails (λ t. is_verified t.status && not (is_unacked t.acked_at)) w)
    ++ revert_candidates
        (query env.acked_fails (λ t. is_reverted t.status && not (is_unacked t.acked_at)) w)

-- `NewServerTransferClass`; the database and the server cache are as they are.
unfoldable pub restart : RestartEnv → ℕ → World → World
unfolding select index_pending index_reverted oldest_first newest_first index_verified
    forward_candidates revert_candidates
restart env now w =
    let slots = index_pending w.servers (query env.pending_fails is_pending w) empty in
    let back = index_reverted w.servers (reverted_rows env now w) empty in
    record w {
      pending = slots;
      revert_deliveries = back;
      terminal_secret_recovery = back;
      verified_handshakes = index_verified w.servers slots (newest_first (candidates env w)) empty;
      control_epoch = empty;
    }
