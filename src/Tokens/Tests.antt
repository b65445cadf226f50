-- ===== src/Tokens/Tests.antt =====
-- Tokens before and after, and the theorems at concrete inputs.
use sakura_monitoring.Base.{
  ℕ, ◌≡◌, ◌↔◌, refl, ap, Bool, true, false, none, List, [], ◌∷◌, String, arith, All, Has, any,
}
use sakura_monitoring.Base.Text.{
  trim_space, trim_left, trim_right, cons_unless_blank, split, join, has_prefix,
}
use sakura_monitoring.Tokens.Scopes.{
  ApiToken, scopes, trimmed, decode_scopes, legacy_rewrite, normalize_incoming_scope,
}
use sakura_monitoring.Tokens.Servers.{
  parse_id, parse_ids, server_ids, digit, fill, format_uint, set_server_ids, can_access_server,
}
use sakura_monitoring.Tokens.Whitelist.{server_ids-set_server_ids, can_access_server-set_server_ids}
use sakura_monitoring.Tokens.Migration.{
  normalize_all, fate, apply_fate, migrate_rows, migrate_legacy_mcp_scopes,
}
use sakura_monitoring.Tokens.Normalized.{NoLegacy}
use sakura_monitoring.Tokens.Migrated.{
  IsNarrowed, HasNoLegacy, migrate_legacy_mcp_scopes-IsNarrowed,
  migrate_legacy_mcp_scopes-HasNoLegacy,
}

abbrev token : ApiToken
token = record {
  id = 3;
  user_id = 7;
  scopes_csv = "mcp:fs:read, nezha:cron:* ,mcp:fs:write,mcp:server:read";
  servers_csv = "";
  expires_at = none;
}

stored : (set_server_ids (12 ∷ 305 ∷ []) token).servers_csv ≡ "12,305"
unfolding set_server_ids format_uint fill digit join
stored = refl

-- A list that does not parse reads as the empty list, which limits nothing.
unreadable : can_access_server (record token { servers_csv = "x,0" }) 99 ≡ true
unfolding can_access_server server_ids parse_ids parse_id split trim_space trim_left trim_right
    cons_unless_blank
unreadable = refl

server_ids-set_server_ids_example :
    server_ids (set_server_ids (12 ∷ 0 ∷ 305 ∷ []) token) ≡ 12 ∷ 305 ∷ []
server_ids-set_server_ids_example =
    server_ids-set_server_ids (12 ∷ 0 ∷ 305 ∷ []) token
      (omega arith, (omega arith, (omega arith, tt)))

can_access_server-set_server_ids_example :
    (can_access_server (set_server_ids (12 ∷ 305 ∷ []) token) 13 ≡ true)
    ↔ Has {A = ℕ} 13 (12 ∷ 305 ∷ [])
can_access_server-set_server_ids_example =
    can_access_server-set_server_ids 12 (305 ∷ []) token 13 (omega arith, (omega arith, tt))
      ((λ e. ground (arith, e)), ((λ e. ground (arith, e)), tt))

-- `LIKE '%mcp:%'` as a search for a scope that begins so
abbrev selects : ApiToken → Bool
selects t = any (λ s. has_prefix s "mcp:") (scopes t)

none_legacy : (ss : List String) → any (λ s. has_prefix s "mcp:") ss ≡ false → All NoLegacy ss
none_legacy [] e = tt
none_legacy (s ∷ ss) e = (ground (arith, e), none_legacy ss (ground (arith, e)))

abbrev never : ℕ → Bool
never id = false

table_migrated : migrate_legacy_mcp_scopes selects false never (token ∷ []) ≡ (
  record { rewritten = 1; deleted = 0; failed = false },
  record token { scopes_csv = "nezha:server:read,nezha:cron:*" } ∷ [],
)
unfolding migrate_legacy_mcp_scopes migrate_rows fate apply_fate normalize_all
    normalize_incoming_scope legacy_rewrite decode_scopes trimmed split trim_space trim_left
    trim_right cons_unless_blank join has_prefix
table_migrated = refl

migrate_legacy_mcp_scopes-IsNarrowed_example :
    All
      (λ t. IsNarrowed (token ∷ []) t)
      (migrate_legacy_mcp_scopes selects false never (token ∷ [])).1
migrate_legacy_mcp_scopes-IsNarrowed_example =
    migrate_legacy_mcp_scopes-IsNarrowed selects false never (token ∷ [])

migrate_legacy_mcp_scopes-HasNoLegacy_example :
    All HasNoLegacy (migrate_legacy_mcp_scopes selects false never (token ∷ [])).1
migrate_legacy_mcp_scopes-HasNoLegacy_example =
    migrate_legacy_mcp_scopes-HasNoLegacy selects false never (token ∷ [])
      (λ t e. none_legacy (scopes t) e) (ap (λ r. r.0.failed) table_migrated)
