-- ===== src/Streams/Attaching.antt =====
-- Which stream `IOStream` attaches an agent to.
use sakura_monitoring.Base.{
  ℕ, ◌<◌, ◌≡◌, ◌≢◌, inl, inr, refl, sym, ap, ◌∙◌, true, Option, none, some, List, [], ◌∷◌, ◌++◌,
  subst, String, str_eq_iff, string_eq, arith, Bool-cases, Option-cases,
}
use sakura_monitoring.Base.Map.{get, insert, get-insert}
use sakura_monitoring.Streams.Registry.{
  Registry, Stream, StreamError, is_stream_authorized_for_agent, agent_connected,
}
use sakura_monitoring.Streams.Steps.{IsRegistry, Step, step, run}
use sakura_monitoring.Streams.Stability.{run-IsFrom}
use sakura_monitoring.Streams.Relay.{
  attach_io, finish_io, io_stream, is_valid_io_stream_magic, stream_id,
}

-- The connection is the agent's end of a live stream, which had no such end before.
record IsNewEnd (id : String) (io : ℕ) (r r' : Registry) : Type 0 where
  before : Stream
  was : get id r.streams ≡ some before
  free : before.agent_io ≡ none
  live : get id r'.streams ≡ some (record before { agent_io = some io })

agent_connected-IsNewEnd :
    (id : String) (io : ℕ) (r r' : Registry)
    → agent_connected id io r ≡ (none, r')
    → IsNewEnd id io r r'
unfolding agent_connected
agent_connected-IsNewEnd id io r r' e = elim (Option-cases (get id r.streams)) [
  | inl f ↦ ground (arith, e, f, agent_connected)
  | inr f ↦ elim (Option-cases f.0.agent_io) [
    | inr g ↦ ground (arith, e, f.1, g.1, agent_connected)
    | inl g ↦
        let t : Stream = record f.0 { agent_io = some io } in
        let after : Registry = record r { streams = insert id t r.streams } in
        let calc : agent_connected id io r ≡ (none, after) = rw (f.1, g, agent_connected) refl in
        let done : after ≡ r' = ap (λ o. o.1) (sym calc ∙ e) in
        record {
          before = f.0;
          was = f.1;
          free = g;
          live =
              ap (λ q. get id q.streams) (sym done)
              ∙ ground (arith, get-insert id id t r.streams, str_eq_iff id id);
        }
  ]
]

-- The connection is the agent's end of a live stream. If that stream was opened before the agent's
-- message was checked, it leads to the agent's server, which is a known one.
pub record IsAttached (agent io : ℕ) (start r : Registry) : Type 0 where
  pub id : String
  pub stream : Stream
  pub live : get id r.streams ≡ some stream
  pub end : stream.agent_io ≡ some io
  pub aimed : stream.address < start.next_address → (stream.target_server_id ≡ agent) × (agent ≢ 0)

run-append : (xs ys : List Step) (r : Registry) → run (xs ++ ys) r ≡ run ys (run xs r)
unfolding run
run-append [] ys r = refl
run-append (x ∷ xs) ys r = run-append xs ys (step x r)

finish_io-none :
    (io : ℕ) (o : Option StreamError × Registry) (r' : Registry)
    → finish_io io o ≡ (none, r')
    → o ≡ (none, r')
finish_io-none io (none, r) r' e = ap (λ o. (none, o.1)) e
finish_io-none io (some x, r) r' e = cc

-- The stream that an authorized agent is attached to
new_end-IsAttached :
    (agent : ℕ) (id : String) (io : ℕ) (xs : List Step) (r r' : Registry)
    → IsRegistry r
    → is_stream_authorized_for_agent id agent r ≡ true
    → IsNewEnd id io (run xs r) r'
    → IsAttached agent io r r'
unfolding is_stream_authorized_for_agent
new_end-IsAttached agent id io xs r r' h a n = record {
  id = id;
  stream = record n.before { agent_io = some io };
  live = n.live;
  end = refl;
  aimed = λ old.
      let f = run-IsFrom xs r h id n.before n.was old in ground (arith, a, f.live, f.same.target);
}

attach_io-IsAttached :
    (agent : ℕ) (id : String) (io : ℕ) (xs ys : List Step) (r r' : Registry)
    → IsRegistry r
    → attach_io agent id io xs ys r ≡ (none, r')
    → IsAttached agent io r r'
unfolding attach_io
attach_io-IsAttached agent id io xs ys r r' h e =
    elim (Bool-cases (is_stream_authorized_for_agent id agent r)) [
      | inr a ↦ ground (arith, e, a, attach_io)
      | inl a ↦ elim (Option-cases (get id (run xs r).streams)) [
        | inl f ↦ ground (arith, e, a, f, attach_io)
        | inr f ↦
            let calc : attach_io agent id io xs ys r
                ≡ finish_io io (agent_connected id io (run ys (run xs r))) =
              rw (a, f.1, attach_io) refl in
            let done =
              finish_io-none io (agent_connected id io (run ys (run xs r))) r' (sym calc ∙ e) in
            let new = agent_connected-IsNewEnd id io (run ys (run xs r)) r' done in
            new_end-IsAttached agent id io (xs ++ ys) r r' h a
              (subst (λ q. IsNewEnd id io q r') (sym (run-append xs ys r)) new)
      ]
    ]

-- When `IOStream` takes an agent's connection, the connection is the agent's end of a live stream at that
-- moment. If the stream was opened before the agent was checked, it leads to the agent's own
-- server, whatever other callers did in between.
pub io_stream-IsAttached :
    (agent : ℕ) (bytes : String) (io : ℕ) (xs ys : List Step) (r r' : Registry)
    → IsRegistry r
    → io_stream (some agent) (some bytes) io xs ys r ≡ (none, r')
    → IsAttached agent io r r'
unfolding io_stream
io_stream-IsAttached agent bytes io xs ys r r' h e =
    elim (Bool-cases (is_valid_io_stream_magic bytes)) [
      | inl m ↦
          let calc : io_stream (some agent) (some bytes) io xs ys r
              ≡ attach_io agent (stream_id bytes) io xs ys r =
            rw (m, io_stream) refl in
          attach_io-IsAttached agent (stream_id bytes) io xs ys r r' h (sym calc ∙ e)
      | inr m ↦ ground (arith, e, m, io_stream)
    ]
