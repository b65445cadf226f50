-- ===== src/Transfer/Restart/Recovery.antt =====
-- Which rollbacks a restart opens again.
use sakura_monitoring.Base.{
  ℕ, ◌≡◌, sym, subst, Bool, true, false, some, none, Option-cases, Has, List, [], ◌∷◌, arith, ◌==◌,
  ==_iff, if◌then◌else◌, nat_eq, All, leb, ◌⊎◌, Bool-cases, inl, inr,
}
use sakura_monitoring.Base.Map.{Map, get, insert, get-insert}
use sakura_monitoring.Transfer.Types.{World, Server, ServerTransfer}
use sakura_monitoring.Transfer.Restart.{
  RestartEnv, query, awaits_delivery, place_oldest, oldest_first, is_owned, index_reverted,
  reverted_rows, restart,
}
use sakura_monitoring.Transfer.Invariant.Consistent.{Inv}
use sakura_monitoring.Transfer.Restart.Entries.{oldest_first-Has, index_reverted-finds}
use sakura_monitoring.Transfer.Restart.Pending.{select-All, select-Has}

module _ (Q : ServerTransfer → Type 0) where
  place_oldest-All :
      (t : ServerTransfer) (ts : List ServerTransfer) → Q t → All Q ts → All Q (place_oldest t ts)
  unfolding place_oldest
  place_oldest-All t [] q h = (q, tt)
  place_oldest-All t (u ∷ us) q h = elim (Bool-cases (leb t.updated_at u.updated_at)) [
    | inl e ↦ rw e (q, h)
    | inr e ↦ rw e (h.0, place_oldest-All t us q h.1)
  ]

  oldest_first-All : (ts : List ServerTransfer) → All Q ts → All Q (oldest_first ts)
  unfolding oldest_first
  oldest_first-All [] h = tt
  oldest_first-All (t ∷ ts) h = place_oldest-All t (oldest_first ts) h.0 (oldest_first-All ts h.1)

-- What an entry of the rebuilt map for server `s` is.
pub record IsReopened (now s : ℕ) (w : World) (t : ServerTransfer) : Type 0 where
  pub waits : awaits_delivery now t ≡ true
  pub stored : get t.id w.transfers ≡ some t
  pub server_id : t.server_id ≡ s
  pub owned : is_owned t.from_user_id (get s w.servers) ≡ true

abbrev Waits : ℕ → World → ServerTransfer → Type 0
Waits now w t = (awaits_delivery now t ≡ true) × (get t.id w.transfers ≡ some t)

abbrev next_map : Map ℕ Server → ServerTransfer → Map ℕ ServerTransfer → Map ℕ ServerTransfer
next_map servers u m =
    if is_owned u.from_user_id (get u.server_id servers) then insert u.server_id u m else m

next_map-get :
    (servers : Map ℕ Server) (u x : ServerTransfer) (m : Map ℕ ServerTransfer) (s : ℕ)
    → get s (next_map servers u m) ≡ some x
    → (get s m ≡ some x)
      ⊎ ((u ≡ x) × (u.server_id ≡ s) × (is_owned u.from_user_id (get s servers) ≡ true))
next_map-get servers u x m s g =
    elim (Bool-cases (is_owned u.from_user_id (get u.server_id servers))) [
      | inr e ↦ inl (ground arith)
      | inl e ↦
          let g' : get s (insert u.server_id u m) ≡ some x = ground arith in
          elim (Bool-cases (u.server_id == s)) [
            | inr d ↦ inl (ground (arith, get-insert u.server_id s u m))
            | inl d ↦
                let same : u.server_id ≡ s = ground (arith, ==_iff u.server_id s) in
                inr (
                  ground (arith, get-insert u.server_id s u m),
                  same,
                  subst (λ j. is_owned u.from_user_id (get j servers) ≡ true) same e,
                )
          ]
    ]

index_reverted-IsReopened :
    (now s : ℕ) (w : World) (ts : List ServerTransfer) (m : Map ℕ ServerTransfer)
    (t : ServerTransfer)
    → All (Waits now w) ts
    → ((x : ServerTransfer) → get s m ≡ some x → IsReopened now s w x)
    → get s (index_reverted w.servers ts m) ≡ some t
    → IsReopened now s w t
unfolding index_reverted
index_reverted-IsReopened now s w [] m t a h g = h t g
index_reverted-IsReopened now s w (u ∷ us) m t a h g =
    index_reverted-IsReopened now s w us (next_map w.servers u m) t a.1
      (λ x g'. elim (next_map-get w.servers u x m s g') [
        | inl old ↦ h x old
        | inr (e, at, own) ↦
            subst (IsReopened now s w) e
              (record { waits = a.0.0; stored = a.0.1; server_id = at; owned = own })
      ])
      g

query-Waits :
    (fails : Bool) (now : ℕ) (w : World)
    → Inv w
    → All (Waits now w) (query fails (awaits_delivery now) w)
query-Waits true now w h = tt
query-Waits false now w h =
    select-All (awaits_delivery now) {Q = Waits now w} w.transfers h.rows_distinct
      (λ i t g p. (p, subst (λ j. get j w.transfers ≡ some t) (sym (h.row_id i t g).0) g))

reverted_rows-IsReopened :
    (env : RestartEnv) (now s : ℕ) (t : ServerTransfer) (w : World)
    → Inv w
    → get s (index_reverted w.servers (reverted_rows env now w) []) ≡ some t
    → IsReopened now s w t
unfolding get
reverted_rows-IsReopened env now s t w h =
    index_reverted-IsReopened now s w (reverted_rows env now w) [] t
      (oldest_first-All (Waits now w) (query env.reverted_fails (awaits_delivery now) w)
        (query-Waits env.reverted_fails now w h))
      (λ x g. ground arith)

-- No stored row of the server that waits for delivery has the server's owner as its source.
abbrev pub NoneWaits : ℕ → ℕ → World → Type 0
NoneWaits now s w =
    (i : ℕ) (t : ServerTransfer)
    → get i w.transfers ≡ some t
    → t.server_id ≡ s
    → awaits_delivery now t ≡ true
    → is_owned t.from_user_id (get s w.servers) ≡ false

none_waits :
    (env : RestartEnv) (now s : ℕ) (w : World)
    → env.reverted_fails ≡ false
    → get s (index_reverted w.servers (reverted_rows env now w) []) ≡ none
    → NoneWaits now s w
none_waits env now s w f e i t g at waits =
    elim (Bool-cases (is_owned t.from_user_id (get s w.servers))) [
      | inr o ↦ o
      | inl o ↦
          let listed : Has t (query env.reverted_fails (awaits_delivery now) w) =
            rw f (select-Has (awaits_delivery now) i t w.transfers g waits) in
          let (v, found) =
            index_reverted-finds w.servers s t (reverted_rows env now w) []
              (oldest_first-Has t (query env.reverted_fails (awaits_delivery now) w) listed) at o in
          ground arith
    ]

-- In a state in which the database and the pending index agree, a restart leaves each server in one of
-- two ways. It opens one rollback, both for delivery and for its secrets: its stored row ended without
-- verification inside the recovery window and was never acknowledged, and the server belongs to the
-- source of that transfer. Or it opens none, neither for delivery nor for secrets, and then the query of
-- these rows failed, or there is no such row.
pub restart-IsReopened :
    (env : RestartEnv) (now s : ℕ) (w : World)
    → Inv w
    → ((get s (restart env now w).revert_deliveries ≡ none)
        × (get s (restart env now w).terminal_secret_recovery ≡ none)
        × ((env.reverted_fails ≡ true) ⊎ NoneWaits now s w))
      ⊎ ((t : ServerTransfer) × (get s (restart env now w).revert_deliveries ≡ some t)
          × (get s (restart env now w).terminal_secret_recovery ≡ some t)
          × IsReopened now s w t)
unfolding restart
restart-IsReopened env now s w h =
    let back = index_reverted w.servers (reverted_rows env now w) [] in
    elim (Option-cases (get s back)) [
      | inr (t, e) ↦ inr (t, e, e, reverted_rows-IsReopened env now s t w h e)
      | inl e ↦ inl (
        e,
        e,
        elim (Bool-cases env.reverted_fails) [
          | inl f ↦ inl f
          | inr f ↦ inr (none_waits env now s w f e)
        ],
      )
    ]
