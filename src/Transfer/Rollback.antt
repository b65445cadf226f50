-- ===== src/Transfer/Rollback.antt =====
-- What `Cancel`, `MarkFailed` and `MarkTimeout` do to a pending transfer and to a settled one.
use sakura_monitoring.Base.{
  ℕ, ◌≡◌, ◌≢◌, refl, sym, ◌∙◌, Bool, true, false, Option, none, some, String, ◌∷◌, arith, ◌==◌,
  str_eq, str_eq_iff, nat_eq, Option-cases, Bool-cases, inl, inr,
}
use sakura_monitoring.Base.Map.{Map, get, insert, get-insert, get-delete}
use sakura_monitoring.Transfer.Types.{
  World, Server, ServerTransfer, Status, is_terminal, update_owner, revoke_streams, broadcast,
  set_user_id,
}
use sakura_monitoring.Transfer.Lookup.{live_delivery, prune_delivery}
use sakura_monitoring.Transfer.Push.{
  send_apply_config, send_if_same, push_revert_to, push_revert_if_online,
}
use sakura_monitoring.Transfer.Revert.{
  RevertEnv, terminated, stored, heal, register_recovery, roll_back,
}
use sakura_monitoring.Transfer.Invariant.Consistent.{Inv, owner_of, delete_same-pending}
use sakura_monitoring.Transfer.Invariant.Begin.{own_owner, update_owner-others}

-- What a push leaves alone.
record Untouched (w v : World) : Type 0 where
  transfers : v.transfers ≡ w.transfers
  db_owner : v.db_owner ≡ w.db_owner
  pending : v.pending ≡ w.pending
  recovery : v.terminal_secret_recovery ≡ w.terminal_secret_recovery
  verified : v.verified_handshakes ≡ w.verified_handshakes
  events : v.events ≡ w.events
  revoked : v.revoked ≡ w.revoked
  owners : (j : ℕ) → owner_of (get j v.servers) ≡ owner_of (get j w.servers)

send_apply_config-Untouched :
    (taken : Bool) (t : ServerTransfer) (secret : String) (s : Server) (w : World)
    → get t.server_id w.servers ≡ some s
    → Untouched w (send_apply_config taken t secret s w)
unfolding send_apply_config
send_apply_config-Untouched true t secret s w found = ground arith
send_apply_config-Untouched false t secret s w found = record {
  transfers = refl;
  db_owner = refl;
  pending = refl;
  recovery = refl;
  verified = refl;
  events = refl;
  revoked = refl;
  owners =
      λ j. ground (arith, get-insert t.server_id j (record s { task_stream = none }) w.servers);
}

-- An equal state but for what it delivers.
Untouched-refl : (w : World) → Untouched w w
Untouched-refl w = record {
  transfers = refl;
  db_owner = refl;
  pending = refl;
  recovery = refl;
  verified = refl;
  events = refl;
  revoked = refl;
  owners = λ j. refl;
}

send_if_same-Untouched :
    (taken : Bool) (t : ServerTransfer) (s : Server) (o : Option ServerTransfer) (w : World)
    → get t.server_id w.servers ≡ some s
    → Untouched w (send_if_same taken t s (o, w))
send_if_same-Untouched taken t s none w found = Untouched-refl w
send_if_same-Untouched taken t s (some c) w found = elim (Bool-cases (c.id == t.id)) [
  | inl e ↦ rw e (send_apply_config-Untouched taken t t.revert_handshake_secret s w found)
  | inr e ↦ rw e (Untouched-refl w)
]

push_revert_if_online-Untouched :
    (taken : Bool) (now : ℕ) (t : ServerTransfer) (w : World)
    → Untouched w (push_revert_if_online taken now t w)
unfolding push_revert_if_online push_revert_to
push_revert_if_online-Untouched taken now t w = elim (Option-cases (get t.server_id w.servers)) [
  | inl e ↦ rw (e, push_revert_if_online) (Untouched-refl w)
  | inr (s, found) ↦
      rw (found, push_revert_if_online)
        (elim (Option-cases s.task_stream) [
          | inl e ↦ simp e (Untouched-refl w)
          | inr (stream, e) ↦ simp e (elim (Bool-cases (str_eq t.revert_handshake_secret "")) [
            | inl b ↦ simp b (Untouched-refl w)
            | inr b ↦
                let left = record w {
                  revert_deliveries = prune_delivery now t.server_id w.revert_deliveries;
                } in
                let u =
                  send_if_same-Untouched taken t s
                    (live_delivery now t.server_id w.revert_deliveries) left found in
                simp b (record {
                  transfers = u.transfers;
                  db_owner = u.db_owner;
                  pending = u.pending;
                  recovery = u.recovery;
                  verified = u.verified;
                  events = u.events;
                  revoked = u.revoked;
                  owners = u.owners;
                })
          ])
        ])
]

-- No database call fails, and no concurrent caller settles the row first.
pub record IsCalm (env : RevertEnv) : Type 0 where
  pub first : env.first_fails ≡ false
  pub read : env.read_fails ≡ false
  pub cas : env.cas_fails ≡ false
  pub owner : env.owner_fails ≡ false
  pub commit : env.commit_fails ≡ false
  pub alone : env.rival ≡ none

-- What a rollback leaves behind: the row is terminal, the server is back with its source, in the
-- database and in the cache, the pending slot is empty, the transfer is kept for recovery if it has a
-- handshake secret, no long-term credential changed, the server's streams are revoked and the event is
-- sent.
pub record IsRolledBack (t t' row : ServerTransfer) (w v : World) : Type 0 where
  pub settled : get t.id v.transfers ≡ some row
  pub db_owner : get t.server_id v.db_owner ≡ some t.from_user_id
  pub cached_owner : (u : ℕ) → owner_of (get t.server_id v.servers) ≡ some u → u ≡ t.from_user_id
  pub free : get t.server_id v.pending ≡ none
  pub recovery : t.handshake_secret ≢ "" → get t.server_id v.terminal_secret_recovery ≡ some t'
  pub verified : v.verified_handshakes ≡ w.verified_handshakes
  pub revoked : v.revoked ≡ t.server_id ∷ w.revoked
  pub events : v.events ≡ t' ∷ w.events

pub roll_back-IsRolledBack :
    (env : RevertEnv) (status : Status) (reason : String) (now : ℕ) (t : ServerTransfer) (w : World)
    (owners : Map ℕ ℕ)
    → Inv w
    → get t.server_id w.pending ≡ some t
    → is_terminal status ≡ true
    → update_owner t.server_id t.from_user_id w.db_owner ≡ some owners
    → let t' = terminated status reason now t in
      let row = stored status reason now t in
      IsRolledBack t t' row w (
        roll_back env now t'
          (record w { transfers = insert t.id row w.transfers; db_owner = owners }))
unfolding roll_back heal register_recovery
roll_back-IsRolledBack env status reason now t w owners h held over owned =
    let t' = terminated status reason now t in
    let row = stored status reason now t in
    let (sid, at, st) = h.slot_row t.server_id t held in
    let w1 = record w { transfers = insert t.id row w.transfers; db_owner = owners } in
    let w2 = heal t' (set_user_id t.server_id t.from_user_id w1) in
    let w3 = broadcast t' (revoke_streams t.server_id (register_recovery t' w2)) in
    let u = push_revert_if_online-Untouched env.taken now t' w3 in
    record {
      settled = rw u.transfers (ground (arith, get-insert t.id t.id row w.transfers));
      db_owner =
          rw (u.db_owner, update_owner-others t.server_id t.from_user_id w.db_owner owners owned)
            (ground (arith, get-insert t.server_id t.server_id t.from_user_id w.db_owner));
      cached_owner =
          λ x g. own_owner t.server_id t.from_user_id w.servers x (sym (u.owners t.server_id) ∙ g);
      free =
          rw (u.pending, over, delete_same-pending h t at st)
            (ground (arith, get-delete t.server_id t.server_id w.pending));
      recovery = λ ne. rw u.recovery (
          ground (
            arith,
            get-insert t.server_id t.server_id t' w.terminal_secret_recovery,
            str_eq_iff t.handshake_secret "",
          ));
      verified = u.verified;
      revoked = u.revoked;
      events = u.events;
    }
