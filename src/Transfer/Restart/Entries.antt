-- ===== src/Transfer/Restart/Entries.antt =====
-- A row that the loop over the ended transfers meets leaves an entry for its server.
use sakura_monitoring.Base.{
  ℕ, ◌≡◌, true, some, Has, ap, ◌∙◌, List, [], ◌∷◌, arith, ◌==◌, ==_iff, nat_eq, leb, Bool-cases,
  inl, inr,
}
use sakura_monitoring.Base.Map.{Map, get, insert, get-insert}
use sakura_monitoring.Transfer.Types.{Server, ServerTransfer}
use sakura_monitoring.Transfer.Restart.{place_oldest, oldest_first, is_owned, index_reverted}

place_oldest-Has :
    (x t : ServerTransfer) (ts : List ServerTransfer) → Has x (t ∷ ts) → Has x (place_oldest t ts)
unfolding place_oldest
place_oldest-Has x t [] h = h
place_oldest-Has x t (u ∷ us) h = elim (Bool-cases (leb t.updated_at u.updated_at)) [
  | inl e ↦ rw e h
  | inr e ↦ rw e (elim h [
    | inl same ↦ inr (place_oldest-Has x t us (inl same))
    | inr r ↦ elim r [ inl same ↦ inl same | inr q ↦ inr (place_oldest-Has x t us (inr q)) ]
  ])
]

pub oldest_first-Has :
    (x : ServerTransfer) (ts : List ServerTransfer) → Has x ts → Has x (oldest_first ts)
unfolding oldest_first
oldest_first-Has x [] h = h
oldest_first-Has x (t ∷ ts) h =
    place_oldest-Has x t (oldest_first ts)
      (elim h [ inl same ↦ inl same | inr r ↦ inr (oldest_first-Has x ts r) ])

-- A server has an entry.
abbrev pub IsEntered : ℕ → Map ℕ ServerTransfer → Type 0
IsEntered s m = (v : ServerTransfer) × (get s m ≡ some v)

module _ (servers : Map ℕ Server) (s : ℕ) where
  insert-IsEntered :
      (u : ServerTransfer) (m : Map ℕ ServerTransfer)
      → IsEntered s m
      → IsEntered s (insert u.server_id u m)
  insert-IsEntered u m (v, g) = elim (Bool-cases (u.server_id == s)) [
    | inl e ↦ (u, ground (arith, get-insert u.server_id s u m))
    | inr e ↦ (v, ground (arith, get-insert u.server_id s u m))
  ]

  index_reverted-keeps :
      (ts : List ServerTransfer) (m : Map ℕ ServerTransfer)
      → IsEntered s m
      → IsEntered s (index_reverted servers ts m)
  unfolding index_reverted
  index_reverted-keeps [] m h = h
  index_reverted-keeps (u ∷ us) m h =
      index_reverted-keeps us (_)
        (elim (Bool-cases (is_owned u.from_user_id (get u.server_id servers))) [
          | inl e ↦ rw e (insert-IsEntered u m h)
          | inr e ↦ rw e h
        ])

  pub index_reverted-finds :
      (x : ServerTransfer) (ts : List ServerTransfer) (m : Map ℕ ServerTransfer)
      → Has x ts
      → x.server_id ≡ s
      → is_owned x.from_user_id (get s servers) ≡ true
      → IsEntered s (index_reverted servers ts m)
  unfolding index_reverted
  index_reverted-finds x [] m h at own = elim h [ ]
  index_reverted-finds x (u ∷ us) m (inl e) at own =
      let same : u.server_id ≡ s = ap (λ (y : ServerTransfer). y.server_id) e ∙ at in
      let owned : is_owned u.from_user_id (get u.server_id servers) ≡ true = rw (e, at) own in
      index_reverted-keeps us (_)
        (rw owned (u, ground (arith, get-insert u.server_id s u m, same, ==_iff u.server_id s)))
  index_reverted-finds x (u ∷ us) m (inr r) at own = index_reverted-finds x us (_) r at own
