-- ===== src/Waf/Lifting.antt =====
-- What lifting a block leaves, and what a block leaves of other addresses.
use sakura_monitoring.Base.{
  ℕ, ◌≡◌, ◌≢◌, refl, ap, ◌∙◌, true, false, any, ◌++◌, List, [], ◌∷◌, ◌==◌, ==_iff, nat_eq, arith,
  Option-cases, Bool-cases, inl, inr,
}
use sakura_monitoring.Waf.Blocking.{update_row-none}
use sakura_monitoring.Waf.Rows.{
  Waf, latest, sum_count, is_blocked, is_row, is_match, blocked_row, first_or_create, update_row,
  block_ip, unblock_ip,
}

unblock_ip-update_row :
    (ip reason id now : ℕ) (rows : List Waf)
    → unblock_ip ip id (update_row ip reason id now rows) ≡ unblock_ip ip id rows
unfolding unblock_ip update_row
unblock_ip-update_row ip reason id now [] = refl
unblock_ip-update_row ip reason id now (w ∷ rows) = elim (Bool-cases (is_row ip id w)) [
  | inl e ↦ rw e (rw e (unblock_ip-update_row ip reason id now rows))
  | inr e ↦ rw e (rw e (ap (λ r. w ∷ r) (unblock_ip-update_row ip reason id now rows)))
]

unblock_ip-append :
    (ip id : ℕ) (rows : List Waf) (w : Waf)
    → is_row ip id w ≡ true
    → unblock_ip ip id (rows ++ (w ∷ [])) ≡ unblock_ip ip id rows
unfolding unblock_ip
unblock_ip-append ip id [] w h = rw h refl
unblock_ip-append ip id (x ∷ rows) w h = elim (Bool-cases (is_row ip id x)) [
  | inl e ↦ rw e (unblock_ip-append ip id rows w h)
  | inr e ↦ rw e (ap (λ r. x ∷ r) (unblock_ip-append ip id rows w h))
]

-- Lifting a block forgets what was just counted, and nothing else: it leaves the rows that lifting it
-- before would have left.
pub unblock_ip-block_ip :
    (ip reason id now : ℕ) (rows : List Waf)
    → unblock_ip ip id (block_ip ip reason id now rows) ≡ unblock_ip ip id rows
unfolding block_ip first_or_create
unblock_ip-block_ip ip reason id now rows =
    unblock_ip-update_row ip reason id now (first_or_create ip reason id now rows)
    ∙ elim (Bool-cases (any (is_match ip id) rows)) [
      | inl e ↦ rw e refl
      | inr e ↦ rw e (unblock_ip-append ip id rows _ (ground (arith, ==_iff ip ip, ==_iff id id)))
    ]

update_row-apart :
    (ip reason id now : ℕ) (w : Waf) (rows : List Waf)
    → is_row ip id w ≡ false
    → update_row ip reason id now (w ∷ rows) ≡ w ∷ update_row ip reason id now rows
unfolding update_row
update_row-apart ip reason id now w rows e = rw e refl

update_row-raised :
    (ip reason id now : ℕ) (w : Waf) (rows : List Waf)
    → is_row ip id w ≡ true
    → update_row ip reason id now (w ∷ rows)
      ≡ blocked_row reason now w ∷ update_row ip reason id now rows
unfolding update_row
update_row-raised ip reason id now w rows e = rw e refl

latest-update_row :
    (ip other reason id now : ℕ) (rows : List Waf)
    → other ≢ ip
    → (latest other (update_row ip reason id now rows) ≡ latest other rows)
      × (sum_count other (update_row ip reason id now rows) ≡ sum_count other rows)
unfolding latest sum_count
latest-update_row ip other reason id now [] n =
    rw (update_row-none ip reason id now [] refl) (refl, refl)
latest-update_row ip other reason id now (w ∷ rows) n =
    let r = latest-update_row ip other reason id now rows n in
    elim (Bool-cases (is_row ip id w)) [
      | inl e ↦
          let apart : w.ip == other ≡ false = ground (arith, ==_iff w.ip other, ==_iff w.ip ip) in
          rw (update_row-raised ip reason id now w rows e, apart, r.0, r.1) (refl, refl)
      | inr e ↦ rw (update_row-apart ip reason id now w rows e, r.0, r.1) (refl, refl)
    ]

latest-append :
    (other : ℕ) (rows : List Waf) (w : Waf)
    → w.ip == other ≡ false
    → (latest other (rows ++ (w ∷ [])) ≡ latest other rows)
      × (sum_count other (rows ++ (w ∷ [])) ≡ sum_count other rows)
unfolding latest sum_count
latest-append other [] w n = rw n (refl, refl)
latest-append other (x ∷ rows) w n =
    let r = latest-append other rows w n in rw (r.0, r.1) (refl, refl)

latest-other :
    (ip other reason id now : ℕ) (rows : List Waf)
    → other ≢ ip
    → (latest other (block_ip ip reason id now rows) ≡ latest other rows)
      × (sum_count other (block_ip ip reason id now rows) ≡ sum_count other rows)
unfolding block_ip first_or_create
latest-other ip other reason id now rows n =
    let made = first_or_create ip reason id now rows in
    let kept : (latest other made ≡ latest other rows)
        × (sum_count other made ≡ sum_count other rows) =
      elim (Bool-cases (any (is_match ip id) rows)) [
        | inl e ↦ rw e (refl, refl)
        | inr e ↦ rw e (latest-append other rows _ (ground (arith, ==_iff ip other)))
      ] in
    let r = latest-update_row ip other reason id now made n in (r.0 ∙ kept.0, r.1 ∙ kept.1)

-- Blocking one address changes nothing for another.
pub is_blocked-other :
    (ip other reason id now at : ℕ) (rows : List Waf)
    → other ≢ ip
    → is_blocked other at (block_ip ip reason id now rows) ≡ is_blocked other at rows
unfolding is_blocked
is_blocked-other ip other reason id now at rows n =
    let r = latest-other ip other reason id now rows n in
    elim (Option-cases (latest other rows)) [
      | inl e ↦ simp (is_blocked, r.0, e) refl
      | inr (t, e) ↦ simp (is_blocked, r.0, e, r.1) refl
    ]
