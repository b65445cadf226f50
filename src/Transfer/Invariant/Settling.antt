-- ===== src/Transfer/Invariant/Settling.antt =====
-- The deletion of servers and of users keeps the agreement of the database with the pending index.
use sakura_monitoring.Base.{
  ℕ, ◌≡◌, refl, sym, ap, subst, ◌∙◌, Bool, true, false, not, ◌&&◌, some, List, [], ◌∷◌, ◌++◌,
  String, arith, ◌==◌, ==_iff, if◌then◌else◌, nat_eq, All, All-mono, Bool-cases, inl, inr, ◌⊎◌,
}
use sakura_monitoring.Base.Map.{Map, get, insert, IsMap, get-insert}
use sakura_monitoring.Transfer.Types.{
  World, ServerTransfer, pending, cancelled, is_terminal, cas_row,
}
use sakura_monitoring.Transfer.Revert.{terminated}
use sakura_monitoring.Transfer.Deleted.{
  list_pending, cancel_rows, cancel_servers, drop_terminated, drop_recovery_of, drop_recovery,
  revoke_all, broadcast_all, on_servers_deleted, on_users_deleted, involves,
}
use sakura_monitoring.Transfer.Invariant.Consistent.{Inv, end-Consistent, delete_same-pending}

-- A listed row is there as it was listed, or it was settled meanwhile.
abbrev Listed : Map ℕ ServerTransfer → ServerTransfer → Type 0
Listed rows t =
    (get t.id rows ≡ some t)
    ⊎ ((x : ServerTransfer) × (get t.id rows ≡ some x) × (is_terminal x.status ≡ true))

list_pending-get :
    (p : ServerTransfer → Bool) (rows : Map ℕ ServerTransfer)
    → IsMap rows
    → ((i : ℕ) (t : ServerTransfer) → get i rows ≡ some t → t.id ≡ i)
    → All (λ t. get t.id rows ≡ some t) (list_pending p rows)
unfolding list_pending get
list_pending-get p [] d ids = tt
list_pending-get p ((i, x) ∷ rows) d ids =
    let own : x.id ≡ i = ids i x (ground (arith, ==_iff i i)) in
    let later =
      All-mono {P = λ t. get t.id rows ≡ some t} {Q = λ t. get t.id ((i, x) ∷ rows) ≡ some t}
        (list_pending p rows) (λ t g. ground (arith, d.0, ==_iff i t.id))
        (list_pending-get p rows d.1 (λ j t g. ids j t (ground (arith, d.0, ==_iff i j)))) in
    elim (Bool-cases (not (is_terminal x.status) && p x)) [
      | inl e ↦ rw e (ground (arith, own, ==_iff i x.id), later)
      | inr e ↦ rw e later
    ]

-- Settling a row keeps what was listed.
Listed-insert :
    (t t' x : ServerTransfer) (rows : Map ℕ ServerTransfer)
    → is_terminal t'.status ≡ true
    → Listed rows x
    → Listed (insert t.id t' rows) x
Listed-insert t t' x rows over l = elim (Bool-cases (t.id == x.id)) [
  | inl e ↦ inr (t', ground (arith, get-insert t.id x.id t' rows), over)
  | inr e ↦ elim l [
    | inl g ↦ inl (ground (arith, get-insert t.id x.id t' rows))
    | inr (y, g, o) ↦ inr (y, ground (arith, get-insert t.id x.id t' rows), o)
  ]
]

-- The state after one row was settled and its slots were dropped.
abbrev settled : String → ℕ → ServerTransfer → World → World
settled reason now t w =
    drop_terminated (terminated cancelled reason now t ∷ [])
      (record w { transfers = insert t.id (terminated cancelled reason now t) w.transfers })

settled-Inv :
    (reason : String) (now : ℕ) (t : ServerTransfer) (w : World)
    → Inv w
    → get t.id w.transfers ≡ some t
    → t.status ≡ pending
    → Inv (settled reason now t w)
unfolding drop_terminated
settled-Inv reason now t w h row st = rw (delete_same-pending h t row st) (
    end-Consistent h t (terminated cancelled reason now t) row st refl refl (λ j ne. refl)
      (λ j ne. refl))

cas_row_settled :
    (id : ℕ) (f : ServerTransfer → ServerTransfer) (rows : Map ℕ ServerTransfer)
    (x : ServerTransfer)
    → get id rows ≡ some x
    → is_terminal x.status ≡ true
    → cas_row id f rows ≡ (rows, false)
unfolding cas_row
cas_row_settled id f rows x g over = ground arith

cas_row_live :
    (id : ℕ) (f : ServerTransfer → ServerTransfer) (rows : Map ℕ ServerTransfer)
    (x : ServerTransfer)
    → get id rows ≡ some x
    → is_terminal x.status ≡ false
    → cas_row id f rows ≡ (insert id (f x) rows, true)
unfolding cas_row
cas_row_live id f rows x g live = ground arith

cancel_rows-Inv :
    (fails : ℕ → Bool) (reason : String) (now : ℕ) (ts : List ServerTransfer) (w : World)
    → Inv w
    → All (Listed w.transfers) ts
    → let r = cancel_rows fails reason now ts w.transfers in
      Inv (drop_terminated r.1 (record w { transfers = r.0 }))
unfolding cancel_rows drop_terminated
cancel_rows-Inv fails reason now [] w h l = h
cancel_rows-Inv fails reason now (t ∷ ts) w h l = elim (Bool-cases (fails t.id)) [
  | inl e ↦ rw e (cancel_rows-Inv fails reason now ts w h l.1)
  | inr e ↦ rw e (elim l.0 [
    | inr (x, g, over) ↦
        rw (cas_row_settled t.id (terminated cancelled reason now) w.transfers x g over)
          (cancel_rows-Inv fails reason now ts w h l.1)
    | inl g ↦ elim (Bool-cases (is_terminal t.status)) [
      | inl old ↦
          rw (cas_row_settled t.id (terminated cancelled reason now) w.transfers t g old)
            (cancel_rows-Inv fails reason now ts w h l.1)
      | inr live ↦ rw (cas_row_live t.id (terminated cancelled reason now) w.transfers t g live) (
          cancel_rows-Inv fails reason now ts (settled reason now t w)
            (settled-Inv reason now t w h g (ground arith))
            (All-mono ts
              (λ x. Listed-insert t (terminated cancelled reason now t) x w.transfers refl) l.1))
    ]
  ])
]

drop_terminated-transfers :
    (ts : List ServerTransfer) (w : World) (rows : Map ℕ ServerTransfer)
    → drop_terminated ts (record w { transfers = rows })
      ≡ record (drop_terminated ts w) { transfers = rows }
unfolding drop_terminated
drop_terminated-transfers [] w rows = refl
drop_terminated-transfers (t ∷ ts) w rows = drop_terminated-transfers ts _ rows

drop_terminated-append :
    (ts us : List ServerTransfer) (w : World)
    → drop_terminated (ts ++ us) w ≡ drop_terminated us (drop_terminated ts w)
unfolding drop_terminated
drop_terminated-append [] us w = refl
drop_terminated-append (t ∷ ts) us w = drop_terminated-append ts us _

list_pending-Listed :
    (p : ServerTransfer → Bool) (w : World)
    → Inv w
    → All (Listed w.transfers) (list_pending p w.transfers)
list_pending-Listed p w h =
    All-mono (list_pending p w.transfers) (λ t g. inl g)
      (list_pending-get p w.transfers h.rows_distinct (λ i t g. (h.row_id i t g).0))

if-Listed :
    (b : Bool) (rows : Map ℕ ServerTransfer) (ts : List ServerTransfer)
    → All (Listed rows) ts
    → All (Listed rows) (if b then [] else ts)
if-Listed true rows ts h = tt
if-Listed false rows ts h = h

cancel_servers-Inv :
    (lists casts : ℕ → Bool) (now : ℕ) (servers : List ℕ) (w : World)
    → Inv w
    → let r = cancel_servers lists casts now servers w.transfers in
      Inv (drop_terminated r.1 (record w { transfers = r.0 }))
unfolding cancel_servers drop_terminated
cancel_servers-Inv lists casts now [] w h = h
cancel_servers-Inv lists casts now (s ∷ ss) w h =
    let listed = if lists s then [] else list_pending (λ t. t.server_id == s) w.transfers in
    let r = cancel_rows casts "server deleted" now listed w.transfers in
    let w1 = drop_terminated r.1 (record w { transfers = r.0 }) in
    let l =
      if-Listed (lists s) w.transfers (list_pending (λ t. t.server_id == s) w.transfers)
        (list_pending-Listed (λ t. t.server_id == s) w h) in
    let h1 : Inv w1 = cancel_rows-Inv casts "server deleted" now listed w h l in
    let e1 : w1.transfers ≡ r.0 =
      ap (λ (x : World). x.transfers) (drop_terminated-transfers r.1 w r.0) in
    let more = cancel_servers lists casts now ss r.0 in
    let last =
      subst
        (λ q.
          let x = cancel_servers lists casts now ss q in
          Inv (drop_terminated x.1 (record w1 { transfers = x.0 })))
        e1 (cancel_servers-Inv lists casts now ss w1 h1) in
    subst Inv
      (sym (
        drop_terminated-append r.1 more.1 (record w { transfers = more.0 })
        ∙ ap (drop_terminated more.1)
            (drop_terminated-transfers r.1 (record w { transfers = r.0 }) more.0)))
      last

-- The last steps of the two handlers leave what the agreement reads.
revoke_all-Inv : (ss : List ℕ) (w : World) → Inv w → Inv (revoke_all ss w)
unfolding revoke_all
revoke_all-Inv [] w h = h
revoke_all-Inv (s ∷ ss) w h = revoke_all-Inv ss _ h

broadcast_all-Inv : (ts : List ServerTransfer) (w : World) → Inv w → Inv (broadcast_all ts w)
unfolding broadcast_all
broadcast_all-Inv [] w h = h
broadcast_all-Inv (t ∷ ts) w h = broadcast_all-Inv ts _ h

pub on_servers_deleted-Inv :
    (lists casts : ℕ → Bool) (now : ℕ) (servers : List ℕ) (w : World)
    → Inv w
    → Inv (on_servers_deleted lists casts now servers w)
unfolding on_servers_deleted
on_servers_deleted-Inv lists casts now servers w h =
    let r = cancel_servers lists casts now servers w.transfers in
    let w1 = drop_terminated r.1 (record w { transfers = r.0 }) in
    let w2 = record w1 {
      terminal_secret_recovery = drop_recovery_of servers w1.terminal_secret_recovery;
    } in
    let h1 : Inv w2 = cancel_servers-Inv lists casts now servers w h in
    broadcast_all-Inv r.1 (revoke_all servers w2) (revoke_all-Inv servers w2 h1)

pub on_users_deleted-Inv :
    (list_fails : Bool) (casts : ℕ → Bool) (now : ℕ) (users : List ℕ) (w : World)
    → Inv w
    → Inv (on_users_deleted list_fails casts now users w)
unfolding on_users_deleted
on_users_deleted-Inv true casts now users w h = h
on_users_deleted-Inv false casts now users w h =
    let ts = list_pending (involves users) w.transfers in
    let r = cancel_rows casts "user deleted" now ts w.transfers in
    let w1 = drop_terminated r.1 (record w { transfers = r.0 }) in
    let h1 =
      cancel_rows-Inv casts "user deleted" now ts w h (list_pending-Listed (involves users) w h) in
    broadcast_all-Inv r.1
      (record w1 { terminal_secret_recovery = drop_recovery r.1 w1.terminal_secret_recovery }) h1
