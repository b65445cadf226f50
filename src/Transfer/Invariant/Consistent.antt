-- ===== src/Transfer/Invariant/Consistent.antt =====
-- The agreement of the rows, the owners and the pending index, and how it survives a transfer that
-- begins and one that ends.
use sakura_monitoring.Base.{
  ℕ, suc, ◌<◌, ◌≡◌, ◌≢◌, true, Option, none, some, arith, nat_eq, inl, inr, Option-cases,
}
use sakura_monitoring.Base.Map.{
  Map, get, insert, delete, IsMap, get-insert, get-delete, insert-IsMap, delete-IsMap,
}
use sakura_monitoring.Transfer.Types.{
  World, Server, ServerTransfer, pending, is_terminal, delete_same,
}

-- The owner of a cached server.
abbrev pub owner_of : Option Server → Option ℕ
owner_of none = none
owner_of (some v) = some v.user_id

pub record Consistent (rows : Map ℕ ServerTransfer) (next : ℕ) (owners : Map ℕ ℕ)
    (servers : Map ℕ Server) (slots : Map ℕ ServerTransfer) : Type 0 where
  pub row_id : (i : ℕ) (t : ServerTransfer) → get i rows ≡ some t → (t.id ≡ i) × (i < next)
  -- A pending slot holds its row, which is pending.
  pub slot_row :
      (s : ℕ) (t : ServerTransfer)
      → get s slots ≡ some t
      → (t.server_id ≡ s) × (get t.id rows ≡ some t) × (t.status ≡ pending)
  -- A pending row is in its slot.
  pub row_slot :
      (i : ℕ) (t : ServerTransfer)
      → get i rows ≡ some t
      → t.status ≡ pending
      → get t.server_id slots ≡ some t
  -- The server of a pending transfer belongs to its target, in the database and in the cache.
  pub db_owner :
      (s u : ℕ) (t : ServerTransfer)
      → get s slots ≡ some t
      → get s owners ≡ some u
      → u ≡ t.to_user_id
  pub cached_owner :
      (s u : ℕ) (t : ServerTransfer)
      → get s slots ≡ some t
      → owner_of (get s servers) ≡ some u
      → u ≡ t.to_user_id
  pub distinct : IsMap slots
  pub rows_distinct : IsMap rows

abbrev pub Inv : World → Type 0
Inv w = Consistent w.transfers w.next_id w.db_owner w.servers w.pending

-- The cached owners agree off one server.
abbrev pub SameOff : ℕ → Map ℕ Server → Map ℕ Server → Type 0
SameOff s a b = (j : ℕ) → j ≢ s → owner_of (get j b) ≡ owner_of (get j a)

module _ {rows : Map ℕ ServerTransfer} {next : ℕ} {owners : Map ℕ ℕ} {servers : Map ℕ Server}
    {slots : Map ℕ ServerTransfer} (h : Consistent rows next owners servers slots) where
  -- A transfer begins on a server with none.
  pub begin-Consistent :
      (t : ServerTransfer) (to : ℕ) {servers' : Map ℕ Server}
      → get t.server_id slots ≡ none
      → t.id ≡ next
      → t.status ≡ pending
      → t.to_user_id ≡ to
      → SameOff t.server_id servers servers'
      → ((u : ℕ) → owner_of (get t.server_id servers') ≡ some u → u ≡ to)
      → Consistent
          (insert t.id t rows)
          (suc next)
          (insert t.server_id to owners)
          servers'
          (insert t.server_id t slots)
  begin-Consistent t to {servers'} free fresh st toward same owned = record {
    row_id = λ i x g. ground (arith, get-insert t.id i t rows, h.row_id i x);
    slot_row = λ s x g. ground (
      arith,
      get-insert t.server_id s t slots,
      get-insert t.id x.id t rows,
      h.slot_row s x,
      h.row_id x.id x,
    );
    row_slot = λ i x g p. ground (
      arith,
      get-insert t.id i t rows,
      get-insert t.server_id x.server_id t slots,
      h.row_slot i x,
    );
    db_owner = λ s u x g o. ground (
      arith,
      get-insert t.server_id s t slots,
      get-insert t.server_id s to owners,
      h.db_owner s u x,
    );
    cached_owner = λ s u x g o.
        ground (arith, get-insert t.server_id s t slots, owned u, same s, h.cached_owner s u x);
    distinct = insert-IsMap t.server_id t slots h.distinct;
    rows_distinct = insert-IsMap t.id t rows h.rows_distinct;
  }

  -- A pending transfer ends: its row becomes terminal, its slot is emptied, and the owner of its
  -- server may change.
  pub end-Consistent :
      (t t' : ServerTransfer) {owners' : Map ℕ ℕ} {servers' : Map ℕ Server}
      → get t.id rows ≡ some t
      → t.status ≡ pending
      → t'.id ≡ t.id
      → is_terminal t'.status ≡ true
      → ((j : ℕ) → j ≢ t.server_id → get j owners' ≡ get j owners)
      → SameOff t.server_id servers servers'
      → Consistent (insert t.id t' rows) next owners' servers' (delete t.server_id slots)
  end-Consistent t t' {owners'} {servers'} row st same_id over others same = record {
    row_id = λ i x g. ground (arith, get-insert t.id i t' rows, h.row_id i x, h.row_id t.id t);
    slot_row = λ s x g.
        ground
          (arith, get-delete t.server_id s slots, get-insert t.id x.id t' rows, h.slot_row s x);
    row_slot = λ i x g p. ground (
      arith,
      get-insert t.id i t' rows,
      get-delete t.server_id x.server_id slots,
      h.row_slot i x,
      h.row_slot t.id t,
      h.row_id i x,
    );
    db_owner =
        λ s u x g o. ground (arith, get-delete t.server_id s slots, others s, h.db_owner s u x);
    cached_owner =
        λ s u x g o. ground (arith, get-delete t.server_id s slots, same s, h.cached_owner s u x);
    distinct = delete-IsMap t.server_id slots h.distinct;
    rows_distinct = insert-IsMap t.id t' rows h.rows_distinct;
  }

  -- A settled row that is written again keeps the agreement.
  pub rewrite-Consistent :
      (t t' : ServerTransfer)
      → get t.id rows ≡ some t
      → is_terminal t.status ≡ true
      → t'.id ≡ t.id
      → is_terminal t'.status ≡ true
      → Consistent (insert t.id t' rows) next owners servers slots
  rewrite-Consistent t t' row old same_id over = record {
    row_id = λ i x g. ground (arith, get-insert t.id i t' rows, h.row_id i x, h.row_id t.id t);
    slot_row = λ s x g. ground (arith, get-insert t.id x.id t' rows, h.slot_row s x);
    row_slot = λ i x g p. ground (arith, get-insert t.id i t' rows, h.row_slot i x);
    db_owner = h.db_owner;
    cached_owner = h.cached_owner;
    distinct = h.distinct;
    rows_distinct = insert-IsMap t.id t' rows h.rows_distinct;
  }

  -- Cached servers may change in all but their owners.
  pub servers-Consistent :
      {servers' : Map ℕ Server}
      → ((j : ℕ) → owner_of (get j servers') ≡ owner_of (get j servers))
      → Consistent rows next owners servers' slots
  servers-Consistent {servers'} same = record {
    row_id = h.row_id;
    slot_row = h.slot_row;
    row_slot = h.row_slot;
    db_owner = h.db_owner;
    cached_owner = λ s u x g o. h.cached_owner s u x g (rw (← same s) o);
    distinct = h.distinct;
    rows_distinct = h.rows_distinct;
  }

  -- The slot of a pending row holds it, so that dropping it by its id empties the slot.
  pub delete_same-pending :
      (t : ServerTransfer)
      → get t.id rows ≡ some t
      → t.status ≡ pending
      → delete_same t.server_id t.id slots ≡ delete t.server_id slots
  unfolding delete_same
  delete_same-pending t row st = ground (arith, h.row_slot t.id t)

  -- No slot holds a settled row.
  pub delete_same-terminal :
      (t : ServerTransfer)
      → get t.id rows ≡ some t
      → is_terminal t.status ≡ true
      → delete_same t.server_id t.id slots ≡ slots
  unfolding delete_same
  delete_same-terminal t row over = elim (Option-cases (get t.server_id slots)) [
    | inl free ↦ ground arith
    | inr (x, held) ↦ ground (arith, h.slot_row t.server_id x held)
  ]
