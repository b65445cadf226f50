-- ===== src/Waf/Tests.antt =====
-- A table of two addresses, and the theorems at it.
use sakura_monitoring.Base.{ℕ, ◌+◌, ◌≡◌, ◌≤◌, refl, some, true, false, List, [], ◌∷◌, arith, nat_eq}
use sakura_monitoring.Waf.Rows.{
  Waf, pow_add, latest, sum_count, is_blocked, first_or_create, update_row, block_ip,
}
use sakura_monitoring.Waf.Blocking.{is_blocked-block_ip}

abbrev table : List Waf
table =
    record { ip = 8; block_identifier = 7; block_reason = 3; block_timestamp = 900; count = 2 }
    ∷ record { ip = 9; block_identifier = 5; block_reason = 1; block_timestamp = 950; count = 1 }
    ∷ []

-- The third failure blocks for 81 seconds.
third_blocks : is_blocked 8 1080 (block_ip 8 3 7 1000 table) ≡ true
unfolding is_blocked latest sum_count pow_add block_ip first_or_create update_row
third_blocks = refl

third_ends : is_blocked 8 1081 (block_ip 8 3 7 1000 table) ≡ false
unfolding is_blocked latest sum_count pow_add block_ip first_or_create update_row
third_ends = refl

newest : (t : ℕ) → latest 8 (block_ip 8 3 7 1000 table) ≡ some t → t + 3 ≤ 2000
unfolding latest block_ip first_or_create update_row
newest t e = ground arith

is_blocked-block_ip_example : is_blocked 8 1002 (block_ip 8 3 7 1000 table) ≡ true
is_blocked-block_ip_example =
    is_blocked-block_ip 8 3 7 1000 1002 table (ground arith) (omega arith)
      (λ t e. omega (arith, newest t e))
