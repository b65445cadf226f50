-- ===== src/Tokens/Scopes.antt =====
-- The scopes of a token: how they are stored, and what they grant.
use sakura_monitoring.Base.{
  ℕ, Bool, true, false, ◌||◌, Option, none, some, List, [], ◌∷◌, String, ltb, str_eq, if◌then◌else◌,
}
use Prim.Native.Char.{Char, char, code}
use Prim.Native.String
use sakura_monitoring.Base.Text.{trim_space, has_prefix, has_suffix, trim_suffix, split, join}

-- The fields of `APIToken` that decide what it may do; a time is a number.
pub record ApiToken : Type 0 where
  pub id : ℕ
  pub user_id : ℕ
  pub scopes_csv : String
  pub servers_csv : String
  pub expires_at : Option ℕ

abbrev pub scope_nezha_all : String
scope_nezha_all = "nezha:*"

abbrev pub scope_server_read : String
scope_server_read = "nezha:server:read"

abbrev pub scope_server_exec : String
scope_server_exec = "nezha:server:exec"

-- `legacyMCPReadOnlyRewrite`
unfoldable pub legacy_rewrite : String → Option String
legacy_rewrite s =
    if str_eq s "mcp:server:read"
    then some scope_server_read
    else if str_eq s "mcp:server:exec"
    then some scope_server_exec
    else if str_eq s "mcp:fs:read"
    then some scope_server_read
    else none

-- `NormalizeIncomingScope`; none for a scope that is refused, which the callers drop.
unfoldable pub normalize_incoming_scope : String → Option String
unfolding legacy_rewrite
normalize_incoming_scope s = elim (legacy_rewrite s) [
  | some mapped ↦ some mapped
  | none ↦ if has_prefix s "mcp:" then none else some s
]

-- The loop of `Scopes`
unfoldable pub trimmed : List String → List String
trimmed [] = []
trimmed (p ∷ ps) =
    let rest = trimmed ps in if str_eq (trim_space p) "" then rest else trim_space p ∷ rest

abbrev pub comma : Char
comma = char 44 tt

-- `Scopes` of a text
unfoldable pub decode_scopes : String → List String
unfolding trimmed
decode_scopes csv = if str_eq csv "" then [] else trimmed (split (code comma) csv)

abbrev pub scopes : ApiToken → List String
scopes t = decode_scopes t.scopes_csv

-- `SetScopes`
abbrev pub set_scopes : List String → ApiToken → ApiToken
set_scopes ss t = record t { scopes_csv = join comma ss }

-- `scopeMatches`
unfoldable pub scope_matches : String → String → Bool
scope_matches owned wanted =
    if str_eq owned wanted
    then true
    else if str_eq owned scope_nezha_all
    then has_prefix wanted "nezha:"
    else if has_suffix owned ":*"
    then has_prefix wanted (String.◌++◌ (trim_suffix owned ":*") ":")
      || str_eq wanted (trim_suffix owned ":*")
    else false

-- The loop of `HasScope`
unfoldable pub any_matches : List String → String → Bool
unfolding scope_matches
any_matches [] wanted = false
any_matches (s ∷ ss) wanted = scope_matches s wanted || any_matches ss wanted

-- `HasScope`
unfoldable pub has_scope : ApiToken → String → Bool
unfolding any_matches decode_scopes
has_scope t wanted = any_matches (scopes t) wanted

-- `IsExpired`
abbrev pub is_expired : ℕ → ApiToken → Bool
is_expired now t = elim t.expires_at [ none ↦ false | some at ↦ ltb at now ]
