-- ===== src/Transfer/Tests/Agents.antt =====
-- The authentication of agents at concrete inputs.
use sakura_monitoring.Base.{
  ◌*◌, ◌≡◌, ◌≢◌, refl, true, false, none, some, [], ◌∷◌, arith, nat_eq, string_eq, ==_iff,
  str_eq_iff,
}
use sakura_monitoring.Base.Map.{get, insert, delete}
use sakura_monitoring.Transfer.Types.{verified, hour}
use sakura_monitoring.Transfer.Lookup.{live_delivery, prune_delivery}
use sakura_monitoring.Transfer.Verify.{promoted, mark_verified, acked}
use sakura_monitoring.Transfer.Auth.{
  AuthEnv, admitted, tolerated, authorize_server, authorize_agent_for_uuid, check,
}
use sakura_monitoring.Transfer.Admission.{check-admitted}
use sakura_monitoring.Transfer.Credentials.{
  IsOwnSecret, authorize_agent_for_uuid-pending, mark_verified-promotes,
}
use sakura_monitoring.Transfer.Reconnect.{check-check}
use sakura_monitoring.Transfer.Tests.{machine, moving, waiting, waiting-Inv}

abbrev clock : AuthEnv
clock = record {
  now = 150;
  agent_secrets = ("s10", 10) ∷ ("s20", 20) ∷ [];
  uuid_is_valid = λ u. true;
  verify_fails = false;
  deliver_fails = false;
  created = none;
}

authorize_agent_for_uuid-pending_example :
    (moving.server_id ≡ 1) × (moving.from_user_id ≡ 10) × (moving.from_user_id ≢ 20)
unfolding get live_delivery authorize_agent_for_uuid authorize_server tolerated prune_delivery
authorize_agent_for_uuid-pending_example =
    authorize_agent_for_uuid-pending 150 10 1 1 "u" (machine 20) moving waiting waiting-Inv refl
      refl refl refl (λ e. ground arith) refl

mark_verified-promotes_example :
    let r = mark_verified false 1 5 150 waiting in
    (r.0 ≡ promoted (record moving { status = verified; acked_at = some 150 }))
    × (get 5 r.1.transfers ≡ some (acked 150 moving))
    × (r.1.pending ≡ delete 1 waiting.pending)
    × (r.1.verified_handshakes ≡ insert 1 "new" waiting.verified_handshakes)
    × (r.1.terminal_secret_recovery ≡ delete 1 waiting.terminal_secret_recovery)
    × (r.1.db_owner ≡ waiting.db_owner)
    × (r.1.uuid_to_id ≡ waiting.uuid_to_id)
unfolding get
mark_verified-promotes_example =
    mark_verified-promotes 150 moving waiting waiting-Inv refl
      (λ e. ground (arith, str_eq_iff "new" ""))

new_is_own : IsOwnSecret "new" 1 waiting
unfolding get
new_is_own = record {
  given = λ e. ground (arith, str_eq_iff "new" "");
  pending = λ k t g e. ground (arith, ==_iff 1 k);
  recovery = λ k t g n. ground arith;
  verified = λ k g. ground arith;
  recovery_distinct = tt;
  verified_distinct = tt;
}

abbrev later : AuthEnv
later = record clock { now = 900 * hour }

new_admitted : (check clock "new" "u" waiting).verdict ≡ admitted 1
unfolding get
new_admitted =
    (check-check clock later "u" moving waiting waiting-Inv refl new_is_own refl refl refl refl).0

check-check_example :
    let r = check clock "new" "u" waiting in
    (r.verdict ≡ admitted 1)
    × (get 1 r.world.pending ≡ none)
    × ((check later "new" "u" r.world).verdict ≡ admitted 1)
unfolding get
check-check_example =
    check-check clock later "u" moving waiting waiting-Inv refl new_is_own refl refl refl refl

check-admitted_example : get "u" (check clock "new" "u" waiting).world.uuid_to_id ≡ some 1
check-admitted_example = check-admitted clock "new" "u" 1 waiting new_admitted
