-- ===== src/Transfer/Auth.antt =====
-- `check` and `authorizeAgentForUUID` of service/rpc/auth.go, from the point where the secret and the
-- UUID were read from the request. The UUID parser is a parameter. The firewall's counters are an
-- outcome here: whether the caller's address is blocked or unblocked.
use sakura_monitoring.Base.{
  ℕ, Bool, true, false, Option, none, some, String, ◌==◌, str_eq, if◌then◌else◌, nat_eq, string_eq,
}
use sakura_monitoring.Base.Map.{Map, get, insert}
use sakura_monitoring.Transfer.Types.{World, Server, ServerTransfer}
use sakura_monitoring.Transfer.Lookup.{
  lookup_pending, lookup_revert_delivery, live_delivery, prune_delivery, lookup_by_handshake_secret,
  lookup_server_by_verified_secret, RecoveryKind, forward, revert, lookup_by_terminal_secret,
}
use sakura_monitoring.Transfer.Verify.{
  Marked, promoted, unchanged, broken, mark_verified, mark_revert_delivered,
}

pub data Denied : Type 0 where
  no_secret bad_uuid other_server verify_failed unknown_secret pending_target not_owner : Denied
  create_failed : Denied

-- What the address of the caller gets from the firewall.
pub data Firewall : Type 0 where
  untouched blocked unblocked : Firewall

pub data Verdict : Type 0 where
  admitted : ℕ → Verdict
  denied : Denied → Verdict

pub record Reply : Type 0 where
  pub verdict : Verdict
  pub firewall : Firewall
  pub world : World

-- The server of a UUID, or that the caller may register one, or a refusal.
pub data Owner : Type 0 where
  known : ℕ → Owner
  unregistered : Owner
  refused : Denied → Owner

abbrev pub is_from : ℕ → Option ServerTransfer → Bool
is_from user none = false
is_from user (some t) = t.from_user_id == user

abbrev pub has : Option ServerTransfer → Bool
has none = false
has (some t) = true

-- A user who does not own the server: only the source of a rollback or of a pending transfer.
unfoldable pub tolerated : ℕ → ℕ → ℕ → World → Owner × World
unfolding live_delivery prune_delivery
tolerated now user cid w =
    let (delivery, w') = lookup_revert_delivery now cid w in
    (
      if is_from user delivery
          then known cid
          else if is_from user (lookup_pending cid w')
          then known cid
          else refused not_owner,
      w',
    )

unfoldable pub authorize_server : ℕ → ℕ → ℕ → Server → World → Owner × World
unfolding tolerated
authorize_server now user cid s w =
    if user == 0
    then (known cid, w)
    else if s.user_id == user
    then (if has (lookup_pending cid w) then refused pending_target else known cid, w)
    else tolerated now user cid w

-- `authorizeAgentForUUID`
unfoldable pub authorize_agent_for_uuid : ℕ → ℕ → String → World → Owner × World
unfolding authorize_server
authorize_agent_for_uuid now user uuid w = elim (get uuid w.uuid_to_id) [
  | none ↦ (unregistered, w)
  | some cid ↦ elim (get cid w.servers) [
    | none ↦ (unregistered, w)
    | some s ↦ authorize_server now user cid s w
  ]
]

-- What `check` is given beside the request: the clock, the users' secrets, whether the database
-- fails, and the row that registration creates, none if it fails.
pub record AuthEnv : Type 0 where
  pub now : ℕ
  pub agent_secrets : Map String ℕ
  pub uuid_is_valid : String → Bool
  pub verify_fails : Bool
  pub deliver_fails : Bool
  pub created : Option ℕ

abbrev pub is_server : ℕ → Option ℕ → Bool
is_server server none = false
is_server server (some cid) = cid == server

-- Registration: the new server belongs to the secret's owner.
unfoldable pub create_server : AuthEnv → ℕ → String → World → Reply
create_server env user uuid w = elim env.created [
  | none ↦ record { verdict = denied create_failed; firewall = unblocked; world = w }
  | some id ↦ record {
    verdict = admitted id;
    firewall = unblocked;
    world = record w {
      db_owner = insert id user w.db_owner;
      servers =
          insert id
            (record { user_id = user; uuid = uuid; task_stream = none; host_version = none })
            w.servers;
      uuid_to_id = insert uuid id w.uuid_to_id;
    };
  }
]

abbrev pub by_owner : AuthEnv → ℕ → String → Owner × World → Reply
by_owner env user uuid (known cid, w) = record {
  verdict = admitted cid;
  firewall = unblocked;
  world = w;
}
by_owner env user uuid (refused reason, w) = record {
  verdict = denied reason;
  firewall = unblocked;
  world = w;
}
by_owner env user uuid (unregistered, w) = create_server env user uuid w

-- The users' own secrets, last.
unfoldable pub check_user_secret : AuthEnv → (secret uuid : String) → World → Reply
unfolding authorize_agent_for_uuid create_server
check_user_secret env secret uuid w = elim (get secret env.agent_secrets) [
  | none ↦ record { verdict = denied unknown_secret; firewall = blocked; world = w }
  | some user ↦ by_owner env user uuid (authorize_agent_for_uuid env.now user uuid w)
]

-- The long-term credential of a server.
unfoldable pub check_verified : AuthEnv → (secret uuid : String) → World → Reply
unfolding lookup_server_by_verified_secret check_user_secret
check_verified env secret uuid w = elim (lookup_server_by_verified_secret secret w) [
  | none ↦ check_user_secret env secret uuid w
  | some cid ↦
      if is_server cid (get uuid w.uuid_to_id)
      then record { verdict = admitted cid; firewall = unblocked; world = w }
      else record { verdict = denied other_server; firewall = untouched; world = w }
]

abbrev pub delivered : AuthEnv → ServerTransfer → RecoveryKind → World → World
delivered env t forward w = w
delivered env t revert w = (mark_revert_delivered env.deliver_fails t.server_id t.id env.now w).0

abbrev pub by_recovery :
    AuthEnv → (secret uuid : String) → Option (ServerTransfer × RecoveryKind) × World → Reply
by_recovery env secret uuid (none, w) = check_verified env secret uuid w
by_recovery env secret uuid (some (t, kind), w) =
    if is_server t.server_id (get uuid w.uuid_to_id)
    then record {
      verdict = admitted t.server_id;
      firewall = unblocked;
      world = delivered env t kind w;
    }
    else record { verdict = denied other_server; firewall = untouched; world = w }

-- The secrets of a transfer that ended without verification.
unfoldable pub check_recovery : AuthEnv → (secret uuid : String) → World → Reply
unfolding lookup_by_terminal_secret check_verified
check_recovery env secret uuid w =
    by_recovery env secret uuid (lookup_by_terminal_secret env.now secret w)

abbrev pub by_marked : AuthEnv → (secret uuid : String) → ServerTransfer → Marked × World → Reply
by_marked env secret uuid t (broken, w) = record {
  verdict = denied verify_failed;
  firewall = untouched;
  world = w;
}
by_marked env secret uuid t (promoted t', w) = record {
  verdict = admitted t.server_id;
  firewall = unblocked;
  world = w;
}
by_marked env secret uuid t (unchanged, w) = check_recovery env secret uuid w

-- The handshake secret of a pending transfer.
unfoldable pub check_handshake : AuthEnv → (secret uuid : String) → World → Reply
unfolding lookup_by_handshake_secret check_recovery
check_handshake env secret uuid w = elim (lookup_by_handshake_secret secret w) [
  | none ↦ check_recovery env secret uuid w
  | some t ↦
      if is_server t.server_id (get uuid w.uuid_to_id)
      then by_marked env secret uuid t (mark_verified env.verify_fails t.server_id t.id env.now w)
      else record { verdict = denied other_server; firewall = untouched; world = w }
]

-- `check`
unfoldable pub check : AuthEnv → (secret uuid : String) → World → Reply
unfolding check_handshake
check env secret uuid w =
    if str_eq secret ""
    then record { verdict = denied no_secret; firewall = untouched; world = w }
    else if env.uuid_is_valid uuid
    then check_handshake env secret uuid w
    else record { verdict = denied bad_uuid; firewall = blocked; world = w }
