-- ===== src/Batch/Tests.antt =====
-- A batch that an administrator's limited token asks for, and one that a member asks for.
use sakura_monitoring.Base.{
  ℕ, ◌≡◌, refl, Bool, true, false, none, some, List, [], ◌∷◌, nat_eq, string_eq,
}
use sakura_monitoring.Base.Map.{get, insert, delete}
use sakura_monitoring.Base.Text.{trim_space, trim_left, trim_right, cons_unless_blank, split}
use sakura_monitoring.Tokens.Servers.{parse_id, parse_ids, server_ids, can_access_server}
use sakura_monitoring.Transfer.Types.{own, update_owner}
use sakura_monitoring.Transfer.Initiate.{
  agent_supports, claim_owner, initiate, publish, register, initiate_exclusive,
}
use sakura_monitoring.Transfer.Push.{send_apply_config}
use sakura_monitoring.Transfer.Deliver.{push_handshake, push_to, push_if_online}
use sakura_monitoring.Transfer.Invariant.Consistent.{Inv}
use sakura_monitoring.Transfer.Tests.{semver, luck, calm, start, start-Inv}
use sakura_monitoring.Batch.{
  Caller, pat_allows_server, is_pending, server_not_found, MoveResult, refusal, MoveEnv,
  finish_move, move_known, move_one, move_all, batch_move_server, moved,
}
use sakura_monitoring.Batch.Results.{
  AreAnswers, batch_move_server-member, batch_move_server-AreAnswers, batch_move_server-Inv,
}

-- An administrator whose token is limited to server 1
abbrev admin : Caller
admin = record {
  uid = 10;
  is_admin = true;
  token = some (record {
    id = 4;
    user_id = 10;
    scopes_csv = "nezha:*";
    servers_csv = "1";
    expires_at = none;
  });
}

abbrev member : Caller
member = record { uid = 10; is_admin = false; token = none }

abbrev luckily : MoveEnv
luckily = record { initiation = luck; push = calm; now = 100 }

abbrev requested : List (ℕ × MoveEnv)
requested = (1, luckily) ∷ (2, luckily) ∷ []

abbrev exists : ℕ → Bool
exists user = true

abbrev answers : List MoveResult
answers =
    record { server_id = 1; status = is_pending; transfer_id = 5; error = none }
    ∷ refusal 2 server_not_found
    ∷ []

answered : (batch_move_server semver exists admin 20 requested start).0 ≡ moved answers
unfolding batch_move_server move_all move_one move_known pat_allows_server can_access_server
    server_ids parse_ids parse_id split trim_space trim_left trim_right cons_unless_blank
    finish_move initiate_exclusive agent_supports initiate claim_owner register publish own
    update_owner get insert delete push_if_online push_to push_handshake send_apply_config
answered = refl

batch_move_server-AreAnswers_example : AreAnswers admin 20 requested answers
batch_move_server-AreAnswers_example =
    batch_move_server-AreAnswers semver exists admin 20 requested start answers answered

batch_move_server-member_example :
    (batch_move_server semver exists member 10 requested start).1 ≡ start
batch_move_server-member_example =
    batch_move_server-member semver exists member 10 requested start refl

batch_move_server-Inv_example : Inv (batch_move_server semver exists admin 20 requested start).1
batch_move_server-Inv_example =
    batch_move_server-Inv semver exists admin 20 requested start (tt, (tt, tt)) start-Inv
