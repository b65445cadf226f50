-- ===== src/Waf/Rows.antt =====
-- `CheckIP`, `BlockIP`, `UnblockIP` and `powAdd` of upstream/nezha/model/waf.go, from the point where the
-- address was parsed: an address is a number here. Times are seconds. The table is a list of rows with at
-- most one for each address and identifier. An identifier is a number too: only whether two are equal, and
-- whether one is 0, matters.
use sakura_monitoring.Base.{
  ℕ, ◌+◌, ◌-◌, ◌%◌, ◌^◌, max, Bool, false, ◌&&◌, Option, none, some, List, [], ◌∷◌, ◌++◌, any, ◌||◌,
  ltb, leb, ◌==◌, if◌then◌else◌,
}

pub record Waf : Type 0 where
  pub ip : ℕ
  pub block_identifier : ℕ
  pub block_reason : ℕ
  pub block_timestamp : ℕ
  pub count : ℕ

-- `WAFBlockReasonTypeManual`
abbrev pub manual : ℕ
manual = 4

-- The count that a manual block writes.
abbrev pub manual_count : ℕ
manual_count = 99999

abbrev pub word : ℕ
word = 2 ^ 64

-- `powAdd`: the power and the sum are made in `big.Int`; the bound below wraps.
unfoldable pub pow_add : ℕ → ℕ → ℕ → ℕ
pow_add x y z =
    let result = x ^ y + z in
    if leb word result
    then word - 1
    else if ltb result ((z + 3) % word)
    then (z + 3) % word
    else result

-- `Order("block_timestamp desc").Limit(1)` over the rows of an address: none where there is no row.
unfoldable pub latest : ℕ → List Waf → Option ℕ
latest ip [] = none
latest ip (w ∷ rows) =
    let rest = latest ip rows in
    if w.ip == ip
    then elim rest [ none ↦ some w.block_timestamp | some t ↦ some (max w.block_timestamp t) ]
    else rest

-- `SUM(count)`
unfoldable pub sum_count : ℕ → List Waf → ℕ
sum_count ip [] = 0
sum_count ip (w ∷ rows) =
    let rest = sum_count ip rows in if w.ip == ip then w.count + rest else rest

-- `CheckIP`: whether the address is blocked at a time.
unfoldable pub is_blocked : ℕ → ℕ → List Waf → Bool
unfolding latest sum_count pow_add
is_blocked ip now rows = elim (latest ip rows) [
  | none ↦ false
  | some t ↦ ltb now (pow_add (sum_count ip rows) 4 t)
]

abbrev pub is_row : ℕ → ℕ → Waf → Bool
is_row ip id w = w.ip == ip && w.block_identifier == id

-- The count that the update writes over a count.
abbrev pub next_count : ℕ → ℕ → ℕ
next_count reason count = if reason == manual then manual_count else count + 1

-- The condition of `FirstOrCreate`, in which gorm leaves out a field that is zero. The callers pass user ids
-- and negative constants, never 0.
abbrev pub is_match : ℕ → ℕ → Waf → Bool
is_match ip id w = w.ip == ip && (id == 0 || w.block_identifier == id)

-- `FirstOrCreate`: a new row stands last.
unfoldable pub first_or_create : (ip reason id now : ℕ) → List Waf → List Waf
first_or_create ip reason id now rows =
    if any (is_match ip id) rows
    then rows
    else rows
      ++ (record {
        ip = ip;
        block_identifier = id;
        block_reason = reason;
        block_timestamp = now;
        count = 0;
      }
          ∷ [])

abbrev pub blocked_row : (reason now : ℕ) → Waf → Waf
blocked_row reason now w = record w {
  block_reason = reason;
  block_timestamp = now;
  count = next_count reason w.count;
}

-- The `UPDATE` of the row of an address and an identifier
unfoldable pub update_row : (ip reason id now : ℕ) → List Waf → List Waf
update_row ip reason id now [] = []
update_row ip reason id now (w ∷ rows) =
    (if is_row ip id w then blocked_row reason now w else w) ∷ update_row ip reason id now rows

-- `BlockIP`
unfoldable pub block_ip : (ip reason id now : ℕ) → List Waf → List Waf
unfolding first_or_create update_row
block_ip ip reason id now rows = update_row ip reason id now (first_or_create ip reason id now rows)

-- `UnblockIP`
unfoldable pub unblock_ip : (ip id : ℕ) → List Waf → List Waf
unblock_ip ip id [] = []
unblock_ip ip id (w ∷ rows) =
    let rest = unblock_ip ip id rows in if is_row ip id w then rest else w ∷ rest
