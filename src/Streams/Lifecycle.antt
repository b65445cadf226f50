-- ===== src/Streams/Lifecycle.antt =====
-- How streams end: upstream/nezha/service/rpc/io_stream_lifecycle.go. The connections that a step
-- closes are closed after the registry has changed; the errors of `Close` are not modelled.
use sakura_monitoring.Base.{
  ℕ, Bool, false, Option, none, some, List, [], ◌∷◌, ◌++◌, String, ◌==◌, str_eq, if◌then◌else◌,
  string_eq, length,
}
use sakura_monitoring.Base.Map.{Map, get, delete}
use sakura_monitoring.Streams.Registry.{
  Registry, Stream, StreamPurpose, purpose_code, is_aimed_at, publish_state_change,
}

abbrev pub option_list : Option ℕ → List ℕ
option_list none = []
option_list (some io) = io ∷ []

-- The endpoints that `detachStreamLocked` collects
abbrev pub endpoints : Stream → List ℕ
endpoints s = option_list s.user_io ++ option_list s.agent_io

abbrev pub take_out : String → Stream → Registry → Registry
take_out id s r = record r { streams = delete id r.streams; revoked = s.address ∷ r.revoked }

-- `detachStreamLocked`: the caller's stream is live when the registry holds it under its id.
unfoldable pub detach_stream : String → ℕ → Registry → Option Stream × Registry
detach_stream id address r = if str_eq id "" then (none, r) else elim (get id r.streams) [
  | none ↦ (none, r)
  | some s ↦ if s.address == address then (some s, take_out id s r) else (none, r)
]

abbrev pub prepend : Option Stream → List Stream → List Stream
prepend none ss = ss
prepend (some s) ss = s ∷ ss

-- The body of the loop of `detachStreams`
unfoldable pub detach_if : (Stream → Bool) → String → Stream → Registry → Option Stream × Registry
unfolding detach_stream
detach_if p id s r = if p s then detach_stream id s.address r else (none, r)

-- The loop of `detachStreams`, over the entries that `range` visits
unfoldable pub detach_all : (Stream → Bool) → Map String Stream → Registry → List Stream × Registry
unfolding detach_if
detach_all p [] r = ([], r)
detach_all p ((id, s) ∷ m) r =
    let first = detach_if p id s r in
    let rest = detach_all p m first.1 in (prepend first.0 rest.0, rest.1)

unfoldable pub close_list : List ℕ → Registry → Registry
close_list ios r = record r { closed = ios ++ r.closed }

unfoldable pub all_endpoints : List Stream → List ℕ
all_endpoints [] = []
all_endpoints (s ∷ ss) = endpoints s ++ all_endpoints ss

-- `if len(detached) > 0 { publish }`
abbrev pub publish_if_any : List Stream → Registry → Registry
publish_if_any [] r = r
publish_if_any (s ∷ ss) r = publish_state_change r

-- `detachStreams`: the number of streams that ended
unfoldable pub detach_streams : (Stream → Bool) → Registry → ℕ × Registry
unfolding detach_all all_endpoints close_list
detach_streams p r =
    let detached = detach_all p r.streams r in
    (
      length detached.0,
      close_list (all_endpoints detached.0) (publish_if_any detached.0 detached.1),
    )

-- The end of `detachExactStream`, from what `detachStreamLocked` returned
unfoldable pub finish_detach : Registry → Option Stream × Registry → Registry
unfolding close_list
finish_detach r (none, after) = r
finish_detach r (some s, after) = close_list (endpoints s) (publish_state_change after)

-- `detachExactStream`
unfoldable pub detach_exact_stream : String → ℕ → Registry → Registry
unfolding finish_detach detach_stream
detach_exact_stream id address r = finish_detach r (detach_stream id address r)

-- The test of `CloseStream`: whether a stream is the one that the registry holds under the id. The loop
-- takes out no other stream, so the registry before it answers as the one at each turn.
abbrev pub is_live_as : String → Registry → Stream → Bool
is_live_as id r s =
    if str_eq id ""
    then false
    else elim (get id r.streams) [ none ↦ false | some t ↦ s.address == t.address ]

-- `CloseStream`
unfoldable pub close_stream : String → Registry → Registry
unfolding detach_streams
close_stream id r = (detach_streams (is_live_as id r) r).1

-- `RevokeStreamsForServer`
unfoldable pub revoke_streams_for_server : ℕ → Registry → Registry
unfolding detach_streams
revoke_streams_for_server server r =
    if server == 0 then r else (detach_streams (is_aimed_at server) r).1

abbrev pub is_for : StreamPurpose → Stream → Bool
is_for purpose s = purpose_code s.purpose == purpose_code purpose

-- `RevokeStreamsForPurpose`
unfoldable pub revoke_streams_for_purpose : StreamPurpose → Registry → ℕ × Registry
unfolding detach_streams
revoke_streams_for_purpose purpose r = detach_streams (is_for purpose) r
