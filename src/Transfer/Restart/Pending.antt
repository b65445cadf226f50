-- ===== src/Transfer/Restart/Pending.antt =====
-- A restart rebuilds the pending index.
use sakura_monitoring.Base.{
  ℕ, ◌≡◌, refl, sym, ap, subst, ◌∙◌, Bool, true, false, Option, some, List, [], ◌∷◌, arith, ◌==◌,
  ==_iff, nat_eq, All, Has, Option-cases, Bool-cases, inl, inr,
}
use sakura_monitoring.Base.Map.{Map, get, get-insert, IsMap}
use sakura_monitoring.Transfer.Types.{World, Server, ServerTransfer, pending}
use sakura_monitoring.Transfer.Restart.{
  RestartEnv, select, is_cached, index_pending, is_pending, restart,
}
use sakura_monitoring.Transfer.Invariant.Consistent.{Inv}

-- What holds of each row that passes the test holds of the selected rows.
pub select-All :
    (p : ServerTransfer → Bool) {Q : ServerTransfer → Type 0} (rows : Map ℕ ServerTransfer)
    → IsMap rows
    → ((i : ℕ) (t : ServerTransfer) → get i rows ≡ some t → p t ≡ true → Q t)
    → All Q (select p rows)
unfolding select get
select-All p [] d h = tt
select-All p {Q = Q} ((i, x) ∷ rows) d h =
    let later = select-All p {Q = Q} rows d.1 (λ j t g. h j t (ground (arith, d.0, ==_iff i j))) in
    elim (Bool-cases (p x)) [
      | inl e ↦ rw e (h i x (ground (arith, ==_iff i i)) e, later)
      | inr e ↦ rw e later
    ]

-- A row that passes the test is selected.
pub select-Has :
    (p : ServerTransfer → Bool) (i : ℕ) (x : ServerTransfer) (rows : Map ℕ ServerTransfer)
    → get i rows ≡ some x
    → p x ≡ true
    → Has x (select p rows)
unfolding select get
select-Has p i x [] g e = ground arith
select-Has p i x ((j, y) ∷ rows) g e = elim (Bool-cases (j == i)) [
  | inl s ↦ let same : y ≡ x = ground arith in rw (same, e) (inl refl)
  | inr s ↦
      let later = select-Has p i x rows (ground arith) e in
      elim (Bool-cases (p y)) [ inl q ↦ rw q (inr later) | inr q ↦ rw q later ]
]

module _ (servers : Map ℕ Server) (s : ℕ) (o : Option ServerTransfer) where
  index_pending-keeps :
      (ts : List ServerTransfer) (m : Map ℕ ServerTransfer)
      → All (λ t. t.server_id ≡ s → o ≡ some t) ts
      → get s m ≡ o
      → get s (index_pending servers ts m) ≡ o
  unfolding index_pending
  index_pending-keeps [] m h g = g
  index_pending-keeps (t ∷ ts) m h g =
      index_pending-keeps ts _ h.1 (elim (Bool-cases (is_cached (get t.server_id servers))) [
        | inl e ↦ rw e (ground (arith, get-insert t.server_id s t m, h.0, ==_iff t.server_id s))
        | inr e ↦ rw e g
      ])

  index_pending-finds :
      (x : ServerTransfer) (ts : List ServerTransfer) (m : Map ℕ ServerTransfer)
      → All (λ t. t.server_id ≡ s → o ≡ some t) ts
      → Has x ts
      → x.server_id ≡ s
      → is_cached (get s servers) ≡ true
      → get s (index_pending servers ts m) ≡ o
  unfolding index_pending
  index_pending-finds x [] m h i at c = elim i [ ]
  index_pending-finds x (t ∷ ts) m h i at c = elim i [
    | inl e ↦
        let same : t.server_id ≡ s = ap (λ (y : ServerTransfer). y.server_id) e ∙ at in
        index_pending-keeps ts _ h.1 (rw same (rw c (ground (arith, get-insert s s t m, h.0 same))))
    | inr r ↦ index_pending-finds x ts _ h.1 r at c
  ]

is_pending-status : (t : ServerTransfer) → is_pending t ≡ true → t.status ≡ pending
is_pending-status t e = ground arith

-- A restart whose first query succeeds, in a state in which the database and the pending index agree
-- and the servers of the pending transfers are cached, rebuilds the pending index: every server has
-- the pending transfer that it had.
pub restart-pending :
    (env : RestartEnv) (now s : ℕ) (w : World)
    → Inv w
    → env.pending_fails ≡ false
    → ((j : ℕ) (t : ServerTransfer) → get j w.pending ≡ some t → is_cached (get j w.servers) ≡ true)
    → get s (restart env now w).pending ≡ get s w.pending
unfolding restart get
restart-pending env now s w h works cached =
    let rows = select is_pending w.transfers in
    let only : All (λ t. t.server_id ≡ s → get s w.pending ≡ some t) rows =
      select-All is_pending {Q = λ t. t.server_id ≡ s → get s w.pending ≡ some t} w.transfers
        h.rows_distinct
        (λ i t g p at.
          subst (λ j. get j w.pending ≡ some t) at (h.row_slot i t g (is_pending-status t p))) in
    rw works (elim (Option-cases (get s w.pending)) [
      | inl e ↦ index_pending-keeps w.servers s (get s w.pending) rows [] only (sym e)
      | inr (x, e) ↦
          let (at, row, st) = h.slot_row s x e in
          index_pending-finds w.servers s (get s w.pending) x rows [] only
            (select-Has is_pending x.id x w.transfers row (rw st refl)) at (cached s x e)
    ])
