-- ===== src/Transfer/Lookup.antt =====
-- The lookups of `ServerTransferClass` that the authentication of agents makes.
use sakura_monitoring.Base.{
  ℕ, Bool, true, false, Option, none, some, [], ◌∷◌, String, str_eq, if◌then◌else◌, nat_eq, ◌||◌,
}
use sakura_monitoring.Base.Map.{Map, get, delete, find}
use sakura_monitoring.Transfer.Types.{World, ServerTransfer, recovery_window, is_older}

-- `LookupPending`
abbrev pub lookup_pending : ℕ → World → Option ServerTransfer
lookup_pending server w = get server w.pending

-- `HasPending`
abbrev pub has_pending : ℕ → World → Bool
has_pending server w = elim (get server w.pending) [ none ↦ false | some t ↦ true ]

-- The two halves of `LookupRevertDelivery`: what it finds, and the entry that it drops because it is
-- past the recovery window.
unfoldable pub live_delivery : ℕ → ℕ → Map ℕ ServerTransfer → Option ServerTransfer
live_delivery now server m = elim (get server m) [
  | none ↦ none
  | some t ↦ if is_older recovery_window now t.updated_at then none else some t
]

unfoldable pub prune_delivery : ℕ → ℕ → Map ℕ ServerTransfer → Map ℕ ServerTransfer
prune_delivery now server m = elim (get server m) [
  | none ↦ m
  | some t ↦ if is_older recovery_window now t.updated_at then delete server m else m
]

-- `LookupRevertDelivery`
abbrev pub lookup_revert_delivery : ℕ → ℕ → World → Option ServerTransfer × World
lookup_revert_delivery now server w = (
  live_delivery now server w.revert_deliveries,
  record w { revert_deliveries = prune_delivery now server w.revert_deliveries },
)

abbrev pub values {ℓ} : {A B : Type ℓ} → Option (A × B) → Option B
values none = none
values (some (k, v)) = some v

-- `LookupByHandshakeSecret`
unfoldable pub lookup_by_handshake_secret : String → World → Option ServerTransfer
lookup_by_handshake_secret secret w =
    if str_eq secret ""
    then none
    else values (find (λ _ t. str_eq t.handshake_secret secret) w.pending)

abbrev pub keys {ℓ} : {A B : Type ℓ} → Option (A × B) → Option A
keys none = none
keys (some (k, v)) = some k

-- `LookupServerByVerifiedHandshakeSecret`
unfoldable pub lookup_server_by_verified_secret : String → World → Option ℕ
lookup_server_by_verified_secret secret w =
    if str_eq secret "" then none else keys (find (λ _ s. str_eq s secret) w.verified_handshakes)

pub data RecoveryKind : Type 0 where
  forward revert : RecoveryKind

-- One round of the loop in `LookupByTerminalSecretRecovery`: a hit, if the entry is not too old.
abbrev pub recovery_hit : ℕ → String → ServerTransfer → Bool
recovery_hit now secret t =
    if is_older recovery_window now t.updated_at
    then false
    else (str_eq t.handshake_secret secret || str_eq t.revert_handshake_secret secret)

-- The loop deletes the entries that are too old until it hits; the rest of the map stays.
unfoldable pub prune_until_hit : ℕ → String → Map ℕ ServerTransfer → Map ℕ ServerTransfer
prune_until_hit now secret [] = []
prune_until_hit now secret ((k, t) ∷ m) =
    let rest = prune_until_hit now secret m in
    if is_older recovery_window now t.updated_at
    then rest
    else if recovery_hit now secret t
    then (k, t) ∷ m
    else (k, t) ∷ rest

abbrev pub recovery_kind : String → ServerTransfer → RecoveryKind
recovery_kind secret t = if str_eq t.handshake_secret secret then forward else revert

abbrev pub with_kind : String → Option (ℕ × ServerTransfer) → Option (ServerTransfer × RecoveryKind)
with_kind secret none = none
with_kind secret (some (k, t)) = some (t, recovery_kind secret t)

-- `LookupByTerminalSecretRecovery`
unfoldable pub lookup_by_terminal_secret :
    ℕ → String → World → Option (ServerTransfer × RecoveryKind) × World
unfolding prune_until_hit
lookup_by_terminal_secret now secret w = if str_eq secret "" then (none, w) else (
  with_kind secret (find (λ _ t. recovery_hit now secret t) w.terminal_secret_recovery),
  record w { terminal_secret_recovery = prune_until_hit now secret w.terminal_secret_recovery },
)
