-- ===== src/Waf/Blocking.antt =====
-- How long a block lasts, and what lifts it.
use sakura_monitoring.Base.{
  ℕ, ◌+◌, ◌≤◌, ◌<◌, ◌≡◌, ◌≢◌, refl, sym, ap, ◌∙◌, max, true, false, some, any, ◌++◌, List, [], ◌∷◌,
  ◌==◌, ==_iff, nat_eq, arith, Option-cases, Bool-cases, inl, inr,
}
use sakura_monitoring.Waf.Rows.{
  Waf, word, pow_add, latest, sum_count, is_blocked, is_row, is_match, blocked_row, first_or_create,
  update_row, block_ip,
}

-- A block ends at least three seconds after its time stamp, and never past the greatest 64-bit number.
pow_add-ge : (x y z : ℕ) → z + 3 < word → (z + 3 ≤ pow_add x y z) × (pow_add x y z < word)
unfolding pow_add
pow_add-ge x y z h = ground arith

latest_row :
    (ip n : ℕ) (w : Waf) (rows : List Waf)
    → w.ip == ip ≡ true
    → n ≤ w.block_timestamp
    → (t : ℕ) × (latest ip (w ∷ rows) ≡ some t) × (n ≤ t)
unfolding latest
latest_row ip n w rows e h = elim (Option-cases (latest ip rows)) [
  | inl f ↦ (w.block_timestamp, simp (latest, e, f) refl, h)
  | inr (u, f) ↦ (max w.block_timestamp u, simp (latest, e, f) refl, omega arith)
]

latest_rest :
    (ip n t : ℕ) (w : Waf) (rows : List Waf)
    → latest ip rows ≡ some t
    → n ≤ t
    → (u : ℕ) × (latest ip (w ∷ rows) ≡ some u) × (n ≤ u)
unfolding latest
latest_rest ip n t w rows f h = elim (Bool-cases (w.ip == ip)) [
  | inl e ↦ (max w.block_timestamp t, simp (latest, e, f) refl, omega arith)
  | inr e ↦ (t, simp (latest, e, f) refl, h)
]

latest-update_row :
    (ip reason id now : ℕ) (rows : List Waf)
    → any (is_row ip id) rows ≡ true
    → (t : ℕ) × (latest ip (update_row ip reason id now rows) ≡ some t) × (now ≤ t)
unfolding update_row
latest-update_row ip reason id now [] a = ground arith
latest-update_row ip reason id now (w ∷ rows) a =
    let after = update_row ip reason id now rows in
    elim (Bool-cases (is_row ip id w)) [
      | inl e ↦
          rw e (latest_row ip now (blocked_row reason now w) after (ground arith) (omega arith))
      | inr e ↦
          let (t, f, h) = latest-update_row ip reason id now rows (ground arith) in
          rw e (latest_rest ip now t w after f h)
    ]

any-append :
    (ip id : ℕ) (rows : List Waf) (w : Waf)
    → is_row ip id w ≡ true
    → any (is_row ip id) (rows ++ (w ∷ [])) ≡ true
any-append ip id [] w h = ground arith
any-append ip id (x ∷ rows) w h = ground (arith, any-append ip id rows w h)

is_match-is_row : (ip id : ℕ) (w : Waf) → id ≢ 0 → is_match ip id w ≡ is_row ip id w
is_match-is_row ip id w n = ground (arith, ==_iff id 0)

any-is_match :
    (ip id : ℕ) (rows : List Waf) → id ≢ 0 → any (is_match ip id) rows ≡ any (is_row ip id) rows
any-is_match ip id [] n = refl
any-is_match ip id (w ∷ rows) n = rw (is_match-is_row ip id w n, any-is_match ip id rows n) refl

first_or_create-is_row :
    (ip reason id now : ℕ) (rows : List Waf)
    → id ≢ 0
    → any (is_row ip id) (first_or_create ip reason id now rows) ≡ true
unfolding first_or_create
first_or_create-is_row ip reason id now rows n = elim (Bool-cases (any (is_match ip id) rows)) [
  | inl e ↦ rw e (sym (any-is_match ip id rows n) ∙ e)
  | inr e ↦ rw e (any-append ip id rows _ (ground (arith, ==_iff ip ip, ==_iff id id)))
]

-- An address that was blocked under an identifier other than 0, for whatever reason and with whatever rows
-- before, is blocked for the next three seconds at least, while its newest time stamp is three seconds
-- below the greatest 64-bit number.
pub is_blocked-block_ip :
    (ip reason id now later : ℕ) (rows : List Waf)
    → id ≢ 0
    → later < now + 3
    → ((t : ℕ) → latest ip (block_ip ip reason id now rows) ≡ some t → t + 3 < word)
    → is_blocked ip later (block_ip ip reason id now rows) ≡ true
unfolding is_blocked block_ip
is_blocked-block_ip ip reason id now later rows n soon all =
    let made = first_or_create ip reason id now rows in
    let after = update_row ip reason id now made in
    let (t, f, h) =
      latest-update_row ip reason id now made (first_or_create-is_row ip reason id now rows n) in
    let p = pow_add-ge (sum_count ip after) 4 t (all t f) in
    simp (is_blocked, f) (ground (arith, p.0))

pub update_row-none :
    (ip reason id now : ℕ) (rows : List Waf)
    → any (is_row ip id) rows ≡ false
    → update_row ip reason id now rows ≡ rows
unfolding update_row
update_row-none ip reason id now [] a = refl
update_row-none ip reason id now (w ∷ rows) a = elim (Bool-cases (is_row ip id w)) [
  | inl e ↦ ground arith
  | inr e ↦ rw e (ap (λ r. w ∷ r) (update_row-none ip reason id now rows (ground arith)))
]

-- Under the identifier 0, an address that has a row under another identifier and none under 0 gets no
-- row, and the table stays as it is.
pub block_ip-zero :
    (ip reason now : ℕ) (rows : List Waf)
    → any (is_match ip 0) rows ≡ true
    → any (is_row ip 0) rows ≡ false
    → block_ip ip reason 0 now rows ≡ rows
unfolding block_ip first_or_create
block_ip-zero ip reason now rows found other = rw found (update_row-none ip reason 0 now rows other)
