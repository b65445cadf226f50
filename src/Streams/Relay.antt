-- ===== src/Streams/Relay.antt =====
-- The agent's end of a relay, `IOStream` of upstream/nezha/service/rpc/io_stream_rpc.go, and the waits for
-- the two ends, `startStreamContext` and `WaitForAgent`. Between two of their critical sections other callers
-- take steps, which are an argument. Keep-alives and the copying of bytes are not modelled.
use Prim.Native.Char.{code}
use Prim.Native.String.{◌∷◌}
use sakura_monitoring.Base.{
  ℕ, Bool, false, ◌&&◌, Option, none, some, List, String, ◌==◌, if◌then◌else◌, string_eq,
}
use sakura_monitoring.Base.Map.{get}
use sakura_monitoring.Streams.Registry.{
  Registry, StreamError, stream_not_found, is_stream_authorized_for_agent, agent_connected,
  close_io,
}
use sakura_monitoring.Streams.Steps.{Step, run}

-- `isValidIOStreamMagic`; a text stands for the bytes of a message, a character for a byte.
unfoldable pub is_valid_io_stream_magic : String → Bool
is_valid_io_stream_magic (a ∷ b ∷ c ∷ d ∷ rest) =
    code a == 255 && code b == 5 && code c == 255 && code d == 5
is_valid_io_stream_magic _ = false

-- `string(id.Data[4:])`
unfoldable pub stream_id : String → String
stream_id (a ∷ b ∷ c ∷ d ∷ rest) = rest
stream_id _ = ""

pub data IoError : Type 0 where
  unauthenticated no_message invalid_stream_id not_authorized : IoError
  refused : StreamError → IoError

-- `AgentConnected` closes a connection that it refuses, and `IOStream` closes it again.
abbrev pub finish_io : ℕ → Option StreamError × Registry → Option IoError × Registry
finish_io io (none, r) = (none, r)
finish_io io (some e, r) = (some (refused e), close_io io r)

-- `IOStream` from the test of the id on
unfoldable pub attach_io :
    ℕ → String → ℕ → List Step → List Step → Registry → Option IoError × Registry
unfolding is_stream_authorized_for_agent agent_connected run
attach_io agent id io xs ys r =
    if is_stream_authorized_for_agent id agent r
    then elim (get id (run xs r).streams) [
      | none ↦ (some (refused stream_not_found), run xs r)
      | some s ↦ finish_io io (agent_connected id io (run ys (run xs r)))
    ]
    else (some not_authorized, r)

-- `IOStream`: whom `Auth.Check` knows the caller as, the first message, the new connection, and the steps
-- of others before `GetStream` and before `AgentConnected`
unfoldable pub io_stream :
    Option ℕ → Option String → ℕ → List Step → List Step → Registry → Option IoError × Registry
unfolding is_valid_io_stream_magic stream_id attach_io
io_stream none message io xs ys r = (some unauthenticated, r)
io_stream (some agent) none io xs ys r = (some no_message, r)
io_stream (some agent) (some bytes) io xs ys r =
    if is_valid_io_stream_magic bytes
    then attach_io agent (stream_id bytes) io xs ys r
    else (some invalid_stream_id, r)
