-- ===== src/Streams/Registry.antt =====
-- The registry of streams: `ioStreamContext`, `createStreamLocked` with its quotas, and the
-- operations of upstream/nezha/service/rpc/io_stream_registry.go. Each is one step under
-- `ioStreamMutex`.
use sakura_monitoring.Base.{
  ℕ, ◌+◌, ◌%◌, ◌^◌, Bool, true, false, not, ◌&&◌, ◌||◌, Option, none, some, List, [], ◌∷◌, String,
  leb, ◌==◌, if◌then◌else◌, string_eq,
}
use sakura_monitoring.Base.Map.{Map, empty, get, insert}

pub data StreamPurpose : Type 0 where
  legacy mcp_transfer terminal file_manager nat : StreamPurpose

-- The number that `iota` gives a purpose.
abbrev pub purpose_code : StreamPurpose → ℕ
purpose_code legacy = 0
purpose_code mcp_transfer = 1
purpose_code terminal = 2
purpose_code file_manager = 3
purpose_code nat = 4

-- `ioStreamContext` without its channels, which are closed when an end arrives or the stream is
-- revoked, and wake those who wait. The address tells two streams apart that had the same id one after the other;
-- an `io.ReadWriteCloser` is the number of a connection.
pub record Stream : Type 0 where
  pub address : ℕ
  pub creator_user_id : ℕ
  pub target_server_id : ℕ
  pub purpose : StreamPurpose
  pub user_io : Option ℕ
  pub agent_io : Option ℕ

-- The fields of `NezhaHandler` under `ioStreamMutex`, the next free address, the addresses of the
-- streams whose `revokedCh` is closed, and the connections on which `Close` was called.
pub record Registry : Type 0 where
  pub streams : Map String Stream
  pub generation : ℕ
  pub next_address : ℕ
  pub revoked : List ℕ
  pub closed : List ℕ

abbrev pub new_registry : Registry
new_registry = record {
  streams = empty;
  generation = 0;
  next_address = 0;
  revoked = [];
  closed = [];
}

pub data StreamError : Type 0 where
  stream_already_exists too_many_streams_for_user too_many_streams_for_server : StreamError
  stream_not_found agent_stream_already_connected : StreamError

-- The streams that pass a test.
unfoldable pub count : (Stream → Bool) → Map String Stream → ℕ
count p [] = 0
count p ((id, s) ∷ m) = if p s then count p m + 1 else count p m

-- `maxStreamsPerUser` and `maxStreamsPerServer`
abbrev pub max_streams_per_user : ℕ
max_streams_per_user = 20

abbrev pub max_streams_per_server : ℕ
max_streams_per_server = 40

abbrev pub is_created_by : ℕ → Stream → Bool
is_created_by user s = not (user == 0) && s.creator_user_id == user

abbrev pub is_aimed_at : ℕ → Stream → Bool
is_aimed_at server s = s.target_server_id == server

-- `publishIOStreamStateChangeLocked`: the waiters are woken, and the generation is a uint64.
abbrev pub publish_state_change : Registry → Registry
publish_state_change r = record r { generation = (r.generation + 1) % 2 ^ 64 }

-- `newIOStreamContext`
abbrev pub new_stream : ℕ → ℕ → ℕ → StreamPurpose → Stream
new_stream address creator target purpose = record {
  address = address;
  creator_user_id = creator;
  target_server_id = target;
  purpose = purpose;
  user_io = none;
  agent_io = none;
}

-- The end of `createStreamLocked`, past its guards
unfoldable pub add_stream : String → ℕ → ℕ → StreamPurpose → Registry → Registry
add_stream id creator target purpose r = publish_state_change (record r {
  streams = insert id (new_stream r.next_address creator target purpose) r.streams;
  next_address = r.next_address + 1;
})

-- `CreateStreamWithPurpose`
unfoldable pub create_stream_with_purpose :
    String → ℕ → ℕ → StreamPurpose → Registry → Option StreamError × Registry
unfolding add_stream count
create_stream_with_purpose id creator target purpose r = elim (get id r.streams) [
  | some s ↦ (some stream_already_exists, r)
  | none ↦
      if not (creator == 0) && leb max_streams_per_user (count (is_created_by creator) r.streams)
      then (some too_many_streams_for_user, r)
      else if leb max_streams_per_server (count (is_aimed_at target) r.streams)
      then (some too_many_streams_for_server, r)
      else (none, add_stream id creator target purpose r)
]

-- `CreateStream`
abbrev pub create_stream : String → ℕ → ℕ → Registry → Option StreamError × Registry
create_stream id creator target r = create_stream_with_purpose id creator target legacy r

-- `IsStreamAuthorizedForAgent`
unfoldable pub is_stream_authorized_for_agent : String → ℕ → Registry → Bool
is_stream_authorized_for_agent id agent r = elim (get id r.streams) [
  | none ↦ false
  | some s ↦ not (s.target_server_id == 0) && s.target_server_id == agent
]

-- `StreamOwnership`
abbrev pub stream_ownership : String → Registry → ℕ × Bool
stream_ownership id r = elim (get id r.streams) [
  | none ↦ (0, false)
  | some s ↦ (s.creator_user_id, true)
]

-- `IsStreamAuthorizedForUser`
unfoldable pub is_stream_authorized_for_user : String → ℕ → Bool → Registry → Bool
is_stream_authorized_for_user id user is_admin r =
    let owner = stream_ownership id r in owner.1 && (is_admin || owner.0 == user)

-- `StreamTarget`
abbrev pub stream_target : String → Registry → ℕ × Bool
stream_target id r = elim (get id r.streams) [
  | none ↦ (0, false)
  | some s ↦ (s.target_server_id, true)
]

-- `UserConnected`: a later connection takes the place of an earlier one.
unfoldable pub user_connected : String → ℕ → Registry → Option StreamError × Registry
user_connected id io r = elim (get id r.streams) [
  | none ↦ (some stream_not_found, r)
  | some s ↦ (none, record r { streams = insert id (record s { user_io = some io }) r.streams })
]

abbrev pub close_io : ℕ → Registry → Registry
close_io io r = record r { closed = io ∷ r.closed }

-- `AgentConnected`: a connection that is refused is closed.
unfoldable pub agent_connected : String → ℕ → Registry → Option StreamError × Registry
agent_connected id io r = elim (get id r.streams) [
  | none ↦ (some stream_not_found, close_io io r)
  | some s ↦ elim s.agent_io [
    | some other ↦ (some agent_stream_already_connected, close_io io r)
    | none ↦ (none, record r { streams = insert id (record s { agent_io = some io }) r.streams })
  ]
]
