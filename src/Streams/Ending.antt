-- ===== src/Streams/Ending.antt =====
-- What `CloseStream` and `RevokeStreamsForServer` end.
use sakura_monitoring.Base.{
  ℕ, ◌≡◌, ◌≢◌, ◌↔◌, inl, inr, refl, ◌∙◌, true, false, none, some, String, str_eq_iff, str_eq,
  string_eq, arith, ◌==◌, if◌then◌else◌, Has, Option-cases,
}
use sakura_monitoring.Base.Map.{get}
use sakura_monitoring.Streams.Registry.{Registry, Stream, is_aimed_at}
use sakura_monitoring.Streams.Lifecycle.{
  endpoints, detach_streams, close_stream, is_live_as, revoke_streams_for_server,
}
use sakura_monitoring.Streams.Detaching.{is_taken, left}
use sakura_monitoring.Streams.Detached.{
  detach_streams-get, detach_streams-survives, detach_streams-closed,
}
use sakura_monitoring.Streams.Steps.{IsRegistry}

-- The streams of one server are gone, with both ends closed, and every other stream is as before.
pub record IsCutOff (server : ℕ) (r r' : Registry) : Type 0 where
  pub gone :
      (id : String) (s : Stream)
      → id ≢ ""
      → get id r'.streams ≡ some s
      → s.target_server_id ≢ server
  pub closed :
      (id : String) (s : Stream) (io : ℕ)
      → id ≢ ""
      → get id r.streams ≡ some s
      → s.target_server_id ≡ server
      → Has io (endpoints s)
      → Has io r'.closed
  pub kept :
      (id : String) (s : Stream)
      → s.target_server_id ≢ server
      → (get id r.streams ≡ some s) ↔ (get id r'.streams ≡ some s)

aimed_taken :
    (server : ℕ) (id : String) (s : Stream)
    → id ≢ ""
    → s.target_server_id ≡ server
    → is_taken (is_aimed_at server) id s ≡ true
unfolding is_taken
aimed_taken server id s k a = ground (arith, str_eq_iff id "", k, a)

aimed_spared :
    (server : ℕ) (id : String) (s : Stream)
    → s.target_server_id ≢ server
    → is_taken (is_aimed_at server) id s ≡ false
unfolding is_taken
aimed_spared server id s k = ground (arith, k)

-- Revoking the streams of a server leaves no stream to it under any id but the empty one, closes both ends of each
-- such stream, and changes no stream to another server.
pub revoke_streams_for_server-IsCutOff :
    (server : ℕ) (r : Registry)
    → IsRegistry r
    → server ≢ 0
    → IsCutOff server r (revoke_streams_for_server server r)
unfolding revoke_streams_for_server
revoke_streams_for_server-IsCutOff server r h n =
    let p = is_aimed_at server in
    let e : (server == 0) ≡ false = ground (arith, n) in
    let done : IsCutOff server r (detach_streams p r).1 = record {
      gone = λ id s k g a.
          ground (arith, detach_streams-survives p id s r h.is_map, aimed_taken server id s k a, g);
      closed = λ id s io k g a io_in.
          detach_streams-closed p id s io r h.is_map g (aimed_taken server id s k a) io_in;
      kept = λ id s k.
          ground (arith, detach_streams-survives p id s r h.is_map, aimed_spared server id s k);
    } in
    rw (e, revoke_streams_for_server) done

live_as_taken :
    (id j : String) (s : Stream) (r : Registry)
    → IsRegistry r
    → id ≢ ""
    → get j r.streams ≡ some s
    → is_taken (is_live_as id r) j s ≡ str_eq id j
unfolding is_taken
live_as_taken id j s r h n g = elim (Option-cases (get id r.streams)) [
  | inl e ↦ rw (e, is_taken) (ground (arith, str_eq_iff id j, str_eq_iff id "", g, e))
  | inr e ↦
      rw (e.1, is_taken)
        (ground (
          arith,
          str_eq_iff id j,
          str_eq_iff id "",
          str_eq_iff j "",
          g,
          e.1,
          n,
          h.distinct j id s e.0 g e.1,
        ))
]

ended :
    (id j : String) (r : Registry)
    → IsRegistry r
    → id ≢ ""
    → left (is_live_as id r) j (get j r.streams) (get j r.streams)
      ≡ (if str_eq id j then none else get j r.streams)
ended id j r h n = elim (Option-cases (get j r.streams)) [
  | inl e ↦ rw e (ground arith)
  | inr e ↦ rw (e.1, live_as_taken id j e.0 r h n e.1) refl
]

-- Closing a stream by its id takes out the stream that lives under this id, if it is not the empty
-- one, closes both its ends, and leaves every other id as it was.
pub close_stream-get :
    (id : String) (r : Registry)
    → IsRegistry r
    → id ≢ ""
    → ((j : String)
        → get j (close_stream id r).streams ≡ (if str_eq id j then none else get j r.streams))
      × ((s : Stream) (io : ℕ)
          → get id r.streams ≡ some s
          → Has io (endpoints s)
          → Has io (close_stream id r).closed)
unfolding close_stream
close_stream-get id r h n =
    let p = is_live_as id r in
    (
      λ j. detach_streams-get p j r h.is_map ∙ ended id j r h n,
      λ s io g k.
          detach_streams-closed p id s io r h.is_map g
            (live_as_taken id id s r h n g ∙ (str_eq_iff id id).1 refl) k,
    )
