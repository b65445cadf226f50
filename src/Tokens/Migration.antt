-- ===== src/Tokens/Migration.antt =====
-- `MigrateLegacyMCPScopes` over the rows of the table of tokens. What the `LIKE` of the query selects and
-- which updates fail are arguments.
use sakura_monitoring.Base.{
  ℕ, ◌+◌, Bool, true, false, none, some, List, [], ◌∷◌, String, str_eq, if◌then◌else◌, any,
}
use sakura_monitoring.Base.Text.{join}
use sakura_monitoring.Tokens.Scopes.{
  ApiToken, comma, normalize_incoming_scope, scopes, decode_scopes,
}

-- The inner loop, with the scopes that were seen
unfoldable pub normalize_all : (seen : List String) → List String → List String
unfolding normalize_incoming_scope
normalize_all seen [] = []
normalize_all seen (s ∷ ss) = elim (normalize_incoming_scope s) [
  | none ↦ normalize_all seen ss
  | some mapped ↦ elim (any (λ t. str_eq t mapped) seen) [
    | true ↦ normalize_all seen ss
    | false ↦ mapped ∷ normalize_all (mapped ∷ seen) ss
  ]
]

pub data Fate : Type 0 where
  deletes keeps : Fate
  rewrites : String → Fate

-- What becomes of a token whose scopes are normalized.
abbrev pub fate_of : String → List String → Fate
fate_of csv [] = deletes
fate_of csv (s ∷ ss) =
    if str_eq (join comma (s ∷ ss)) csv then keeps else rewrites (join comma (s ∷ ss))

unfoldable pub fate : ApiToken → Fate
unfolding normalize_all decode_scopes
fate t = fate_of t.scopes_csv (normalize_all [] (scopes t))

pub record Report : Type 0 where
  pub rewritten : ℕ
  pub deleted : ℕ
  pub failed : Bool

-- What a token's fate, and whether its update fails, make of the rows: the first failure ends the loop.
unfoldable pub apply_fate :
    Fate → Bool → ApiToken → List ApiToken → Report × List ApiToken → Report × List ApiToken
apply_fate keeps fails t ts (report, rows) = (report, t ∷ rows)
apply_fate deletes true t ts (report, rows) =
    (record { rewritten = 0; deleted = 0; failed = true }, t ∷ ts)
apply_fate deletes false t ts (report, rows) =
    (record report { deleted = report.deleted + 1 }, rows)
apply_fate (rewrites csv) true t ts (report, rows) =
    (record { rewritten = 0; deleted = 0; failed = true }, t ∷ ts)
apply_fate (rewrites csv) false t ts (report, rows) =
    (record report { rewritten = report.rewritten + 1 }, record t { scopes_csv = csv } ∷ rows)

-- The loop, over all rows of the table
unfoldable pub migrate_rows :
    (is_like : ApiToken → Bool) (fails : ℕ → Bool) → List ApiToken → Report × List ApiToken
unfolding fate apply_fate
migrate_rows is_like fails [] = (record { rewritten = 0; deleted = 0; failed = false }, [])
migrate_rows is_like fails (t ∷ ts) =
    let rest = migrate_rows is_like fails ts in
    if is_like t then apply_fate (fate t) (fails t.id) t ts rest else (rest.0, t ∷ rest.1)

-- `MigrateLegacyMCPScopes`
unfoldable pub migrate_legacy_mcp_scopes :
    (is_like : ApiToken → Bool) (find_fails : Bool) (fails : ℕ → Bool)
    → List ApiToken
    → Report × List ApiToken
unfolding migrate_rows
migrate_legacy_mcp_scopes is_like find_fails fails ts =
    if find_fails
    then (record { rewritten = 0; deleted = 0; failed = true }, ts)
    else migrate_rows is_like fails ts
