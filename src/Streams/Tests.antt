-- ===== src/Streams/Tests.antt =====
-- A small registry, runs of it, and the theorems at concrete inputs.
use sakura_monitoring.Base.{
  ℕ, ◌≡◌, ◌≢◌, inl, inr, refl, ap, subst, none, some, List, [], ◌∷◌, arith, string_eq, nat_eq,
}
use sakura_monitoring.Base.Map.{get, insert, delete}
use sakura_monitoring.Streams.Registry.{
  Registry, Stream, new_registry, count, add_stream, create_stream_with_purpose, user_connected,
  agent_connected, terminal, nat, file_manager, is_stream_authorized_for_agent,
}
use sakura_monitoring.Streams.Lifecycle.{
  detach_stream, detach_if, detach_all, all_endpoints, close_list, detach_streams, close_stream,
}
use sakura_monitoring.Streams.Steps.{
  IsRegistry, Step, step, run, creates, user_connects, agent_connects, closes,
}
use sakura_monitoring.Streams.Quota.{IsWithinQuota, run-IsWithinQuota}
use sakura_monitoring.Streams.Soundness.{new-IsRegistry, run-IsRegistry}
use sakura_monitoring.Streams.Ending.{IsCutOff}
use sakura_monitoring.Streams.Endpoints.{IsAccounted}
use sakura_monitoring.Streams.Agents.{handed_over, run-IsAccounted}
use sakura_monitoring.Streams.Stability.{IsFrom, run-IsFrom}
use sakura_monitoring.Transfer.Tests.{semver, luck, start, moving, opened as initiated}
use sakura_monitoring.Streams.Revocation.{run_hook, initiate_exclusive-IsCutOff}
use sakura_monitoring.Transfer.Initiate.{initiate_exclusive}
use sakura_monitoring.Streams.Relay.{is_valid_io_stream_magic, stream_id, attach_io, io_stream}
use sakura_monitoring.Streams.Attaching.{IsAttached, io_stream-IsAttached}
use sakura_monitoring.Streams.Starting.{
  live_at, turn, start_stream_context, start_stream_context-both, relayed, Wake, user_ready,
  agent_ready,
}

-- User 7 opens a terminal on server 1, the dashboard opens a tunnel to server 2, and both ends of the
-- terminal arrive; a second agent's end is refused.
abbrev opening : List Step
opening =
    creates "a" 7 1 terminal
    ∷ creates "b" 0 2 nat
    ∷ user_connects "a" 100
    ∷ agent_connects "a" 200
    ∷ agent_connects "a" 201
    ∷ []

abbrev terminal_stream : Stream
terminal_stream = record {
  address = 0;
  creator_user_id = 7;
  target_server_id = 1;
  purpose = terminal;
  user_io = some 100;
  agent_io = some 200;
}

abbrev tunnel : Stream
tunnel = record {
  address = 1;
  creator_user_id = 0;
  target_server_id = 2;
  purpose = nat;
  user_io = none;
  agent_io = none;
}

abbrev opened : Registry
opened = record {
  streams = ("a", terminal_stream) ∷ ("b", tunnel) ∷ [];
  generation = 2;
  next_address = 2;
  revoked = [];
  closed = 201 ∷ [];
}

opened_reached : run opening new_registry ≡ opened
unfolding run step create_stream_with_purpose add_stream count user_connected agent_connected get
    insert
opened_reached = refl

opened-IsRegistry : IsRegistry opened
opened-IsRegistry =
    subst (λ r. IsRegistry r) opened_reached (run-IsRegistry opening new_registry new-IsRegistry)

closed_run : close_stream "a" opened ≡ record opened {
  streams = ("b", tunnel) ∷ [];
  generation = 3;
  revoked = 0 ∷ [];
  closed = 100 ∷ 200 ∷ 201 ∷ [];
}
unfolding close_stream detach_streams detach_all detach_if detach_stream all_endpoints close_list
    get delete
closed_run = refl

run-IsWithinQuota_example : IsWithinQuota (run opening new_registry)
run-IsWithinQuota_example = run-IsWithinQuota opening

run-IsAccounted_example : IsAccounted 201 (run opening new_registry)
unfolding handed_over
run-IsAccounted_example = run-IsAccounted opening 201 new_registry new-IsRegistry (inr (inl refl))

-- After the terminal was closed, its id is free, but the tunnel is the same.
abbrev reopening : List Step
reopening = closes "a" ∷ creates "a" 8 2 file_manager ∷ agent_connects "b" 300 ∷ []

tunnel_kept : get "b" (run reopening opened).streams ≡ some (record tunnel { agent_io = some 300 })
unfolding run step create_stream_with_purpose add_stream count agent_connected get insert
    close_stream detach_streams detach_all detach_if detach_stream all_endpoints close_list delete
tunnel_kept = refl

run-IsFrom_example : IsFrom "b" (record tunnel { agent_io = some 300 }) opened
run-IsFrom_example =
    run-IsFrom reopening opened opened-IsRegistry "b" (record tunnel { agent_io = some 300 })
      tunnel_kept (omega arith)

-- The agent of server 2 announces itself for the tunnel while others act.
abbrev attached : Registry
attached = record opened {
  streams = ("a", terminal_stream) ∷ ("b", record tunnel { agent_io = some 300 }) ∷ [];
}

attached_run :
    io_stream (some 2) (some "ÿ\u{5}ÿ\u{5}b") 300 (closes "x" ∷ []) [] opened ≡ (none, attached)
unfolding io_stream is_valid_io_stream_magic stream_id attach_io is_stream_authorized_for_agent
    agent_connected run step close_stream detach_streams detach_all detach_if detach_stream
    all_endpoints close_list get insert
attached_run = refl

io_stream-IsAttached_example : IsAttached 2 300 opened attached
io_stream-IsAttached_example =
    io_stream-IsAttached 2 "ÿ\u{5}ÿ\u{5}b" 300 (closes "x" ∷ []) [] opened attached
      opened-IsRegistry attached_run

-- Both ends of the tunnel arrive while the loop waits.
abbrev host : ℕ
host = 300

abbrev browser : ℕ
browser = 301

abbrev arrivals : List (Wake × List Step)
arrivals =
    (agent_ready, agent_connects "b" host ∷ []) ∷ (user_ready, user_connects "b" browser ∷ []) ∷ []

relay_run : start_stream_context "b" 1 [] arrivals opened ≡ relayed (some browser) (some host)
unfolding start_stream_context turn live_at run step agent_connected user_connected get insert
relay_run = refl

start_stream_context-both_example : (some browser ≢ none) × (some host ≢ none)
start_stream_context-both_example =
    start_stream_context-both "b" 1 [] arrivals opened (some browser) (some host) opened-IsRegistry
      relay_run

-- Server 1 moves from user 10 to user 20 while a terminal to it is open.
initiate_exclusive-IsCutOff_example :
    IsCutOff 1 opened
      (run_hook start (initiate_exclusive semver luck 1 10 20 10 100 start).1 opened)
initiate_exclusive-IsCutOff_example =
    initiate_exclusive-IsCutOff semver luck 1 10 20 10 100 moving start opened opened-IsRegistry
      (λ e. ground (arith, e)) (ap (λ v. v.0) initiated)
