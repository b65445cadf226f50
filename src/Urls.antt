-- ===== src/Urls.antt =====
-- The one-time transfer URLs of upstream/nezha/cmd/dashboard/controller/mcp_transfer.go: how their tokens are
-- minted, consumed and checked again. The signature, HMAC-SHA256 under a secret of the process, the checks of an
-- OAuth grant, and the rows of the users are arguments.
pub mod Redeeming
pub mod Once
pub mod Ownership
mod Tests
use Prim.Native.Char.{code}
use Prim.Native.String
use Prim.Native.String.{[], ◌∷◌}
use sakura_monitoring.Base.{
  ℕ, ◌+◌, Bool, true, false, not, ◌&&◌, ◌||◌, Option, none, some, List, String, ltb, ◌==◌, str_eq,
  if◌then◌else◌, nat_eq, string_eq, length,
}
use sakura_monitoring.Base.Map.{Map, empty, get, insert, delete}
use sakura_monitoring.Transfer.Types.{World, Server}
use sakura_monitoring.Transfer.Epochs.Growth.{epoch_of}
use sakura_monitoring.Tokens.Scopes.{ApiToken, scope_server_read, has_scope, is_expired}
use sakura_monitoring.Tokens.Servers.{can_access_server}
use sakura_monitoring.Control.{server_control_transitioning}

pub data TransferDirection : Type 0 where
  download upload : TransferDirection

abbrev pub is_same_direction : TransferDirection → TransferDirection → Bool
is_same_direction download download = true
is_same_direction upload upload = true
is_same_direction _ _ = false

-- `transferEntry`; the options of an upload are only passed on.
pub record TransferEntry : Type 0 where
  pub control_epoch : ℕ
  pub user_id : ℕ
  pub token_id : ℕ
  pub server_id : ℕ
  pub path : String
  pub direction : TransferDirection
  pub expires_at : ℕ
  pub oauth_grant_id : String

-- `mintTransferToken`: none where the random id fails.
unfoldable pub mint_transfer_token :
    (sign : TransferEntry → String)
    → Option String
    → TransferEntry
    → World
    → Map String TransferEntry
    → Option String × Map String TransferEntry
mint_transfer_token sign random e w m = elim random [
  | none ↦ (none, m)
  | some id ↦
      let bound = record e { control_epoch = epoch_of e.server_id w } in
      let tok = String.◌++◌ id (String.◌++◌ "." (sign bound)) in (some tok, insert tok bound m)
]

pub data ConsumeError : Type 0 where
  unknown_token malformed signature_mismatch direction_mismatch expired : ConsumeError

pub data Consumed : Type 0 where
  consumed : TransferEntry → Consumed
  rejected : ConsumeError → Consumed

-- What stands after the last dot, `tok[strings.LastIndex(tok, ".")+1:]`
unfoldable pub after_last_dot : String → Option String
after_last_dot [] = none
after_last_dot (c ∷ s) = elim (after_last_dot s) [
  | some rest ↦ some rest
  | none ↦ if code c == b'.' then some s else none
]

-- `consumeTransferToken` past the removal of the entry
unfoldable pub check_entry :
    (sign : TransferEntry → String)
    → String
    → TransferDirection
    → (now : ℕ) → TransferEntry
    → Consumed
unfolding after_last_dot
check_entry sign tok dir now e = elim (after_last_dot tok) [
  | none ↦ rejected malformed
  | some sig ↦
      if not (str_eq sig (sign e))
      then rejected signature_mismatch
      else if not (is_same_direction e.direction dir)
      then rejected direction_mismatch
      else if ltb e.expires_at now
      then rejected expired
      else consumed e
]

-- `consumeTransferToken`
unfoldable pub consume_transfer_token :
    (sign : TransferEntry → String)
    → String
    → TransferDirection
    → (now : ℕ) → Map String TransferEntry
    → Consumed × Map String TransferEntry
unfolding check_entry
consume_transfer_token sign tok dir now m = elim (get tok m) [
  | none ↦ (rejected unknown_token, m)
  | some e ↦ (check_entry sign tok dir now e, delete tok m)
]

-- `PurgeTransferEntries`: the number of entries that went
abbrev pub purge_transfer_entries : Map String TransferEntry → ℕ × Map String TransferEntry
purge_transfer_entries m = (length m, empty)

-- `gcExpiredTransferEntries`: the number of expired entries, and the rest
unfoldable pub gc_expired_transfer_entries :
    (now : ℕ) → Map String TransferEntry → ℕ × Map String TransferEntry
gc_expired_transfer_entries now List.[] = (0, List.[])
gc_expired_transfer_entries now (List.◌∷◌ (tok, e) m) =
    let rest = gc_expired_transfer_entries now m in
    if ltb e.expires_at now then (rest.0 + 1, rest.1) else (rest.0, List.◌∷◌ (tok, e) rest.1)

-- What `revalidateTransferEntry` reads beside the state of the transfers.
pub record Validation : Type 0 where
  pub now : ℕ
  pub mcp_enabled : Bool
  pub oauth_is_valid : TransferEntry → Bool
  pub tokens : Map ℕ ApiToken
  -- whether each user is an administrator
  pub users : Map ℕ Bool

pub data RevalidateError : Type 0 where
  ownership_changed mcp_disabled oauth_invalid no_token token_expired : RevalidateError
  no_scope no_access no_server no_user not_owner : RevalidateError

abbrev pub wanted_scope : TransferDirection → String
wanted_scope download = scope_server_read
wanted_scope upload = "nezha:server:write"

-- The user's part: the administrator, or the owner while nothing is in transition
unfoldable pub check_user : Validation → TransferEntry → Server → World → Option RevalidateError
unfolding server_control_transitioning
check_user v e s w = elim (get e.user_id v.users) [
  | none ↦ some no_user
  | some admin ↦
      if not admin && (not (s.user_id == e.user_id) || server_control_transitioning e.server_id w)
      then some not_owner
      else none
]

-- The part after the row of the access token was read
unfoldable pub check_token : Validation → TransferEntry → ApiToken → World → Option RevalidateError
unfolding check_user has_scope can_access_server
check_token v e t w =
    if not (t.user_id == e.user_id)
    then some no_token
    else if is_expired v.now t
    then some token_expired
    else if not (has_scope t (wanted_scope e.direction))
    then some no_scope
    else if not (can_access_server t e.server_id)
    then some no_access
    else elim (get e.server_id w.servers) [ none ↦ some no_server | some s ↦ check_user v e s w ]

-- `revalidateTransferEntry`: none where the entry still holds
unfoldable pub revalidate_transfer_entry :
    Validation → TransferEntry → World → Option RevalidateError
unfolding check_token
revalidate_transfer_entry v e w =
    if not (e.control_epoch == epoch_of e.server_id w)
    then some ownership_changed
    else if not v.mcp_enabled
    then some mcp_disabled
    else if not (str_eq e.oauth_grant_id "") && not (v.oauth_is_valid e)
    then some oauth_invalid
    else elim (get e.token_id v.tokens) [ none ↦ some no_token | some t ↦ check_token v e t w ]

abbrev pub accept : Option RevalidateError → TransferEntry → Option TransferEntry
accept none e = some e
accept (some x) e = none

-- The start of `transferDownloadHandler`: the entry that may be served
abbrev pub admit_consumed : Validation → World → Consumed → Option TransferEntry
admit_consumed v w (rejected x) = none
admit_consumed v w (consumed e) = accept (revalidate_transfer_entry v e w) e

unfoldable pub redeem :
    (sign : TransferEntry → String)
    → Validation
    → TransferDirection
    → String
    → World
    → Map String TransferEntry
    → Option TransferEntry × Map String TransferEntry
unfolding consume_transfer_token revalidate_transfer_entry
redeem sign v dir tok w m =
    if v.mcp_enabled
    then (let c = consume_transfer_token sign tok dir v.now m in (admit_consumed v w c.0, c.1))
    else (none, m)
