-- ===== src/Streams/Endpoints.antt =====
-- No connection of an agent is lost: it is held by a live stream until it is closed.
use sakura_monitoring.Base.{
  ℕ, ◌≡◌, ◌⊎◌, inl, inr, refl, sym, subst, Bool, none, some, List, [], ◌∷◌, ◌++◌, String,
  str_eq_iff, str_eq, string_eq, arith, Has, Has-append, Option-cases, Bool-cases,
}
use sakura_monitoring.Base.Map.{get, get-insert, get-delete, insert, IsMap}
use sakura_monitoring.Streams.Registry.{
  Registry, Stream, create_stream_with_purpose, user_connected, StreamPurpose, add_stream,
  new_stream, agent_connected,
}
use sakura_monitoring.Streams.Lifecycle.{
  endpoints, option_list, close_list, detach_streams, detach_exact_stream,
}
use sakura_monitoring.Streams.Detaching.{is_taken}
use sakura_monitoring.Streams.Detached.{
  detach_streams-survives, detach_streams-closed, detach_streams-keeps,
}
use sakura_monitoring.Streams.Preservation.{create-cases, detach_exact-cases}

-- A live stream has the connection as its agent's end.
pub record IsHeld (io : ℕ) (r : Registry) : Type 0 where
  pub id : String
  pub stream : Stream
  pub live : get id r.streams ≡ some stream
  pub end : stream.agent_io ≡ some io

abbrev pub IsAccounted : ℕ → Registry → Type 0
IsAccounted io r = Has io r.closed ⊎ IsHeld io r

pub agent_connected-IsAccounted :
    (id : String) (io : ℕ) (r : Registry) → IsAccounted io (agent_connected id io r).1
unfolding agent_connected
agent_connected-IsAccounted id io r = elim (Option-cases (get id r.streams)) [
  | inl e ↦ rw (e, agent_connected) (inl (inl refl))
  | inr e ↦ elim (Option-cases e.0.agent_io) [
    | inr f ↦ rw (e.1, f.1, agent_connected) (inl (inl refl))
    | inl f ↦
        let t : Stream = record e.0 { agent_io = some io } in
        let live : get id (insert id t r.streams) ≡ some t =
          ground (arith, get-insert id id t r.streams, str_eq_iff id id) in
        rw (e.1, f, agent_connected) (inr (record { id = id; stream = t; live = live; end = refl }))
  ]
]

agent_is_endpoint : (s : Stream) (io : ℕ) → s.agent_io ≡ some io → Has io (endpoints s)
agent_is_endpoint s io e =
    subst (λ o. Has io (option_list s.user_io ++ option_list o)) (sym e)
      (Has-append io (option_list s.user_io) (io ∷ []) (inr (inl refl)))

close_list-IsAccounted :
    (ios : List ℕ) (io : ℕ) (r : Registry) → IsAccounted io r → IsAccounted io (close_list ios r)
unfolding close_list
close_list-IsAccounted ios io r (inl h) = inl (Has-append io ios r.closed (inr h))
close_list-IsAccounted ios io r (inr h) =
    inr (record { id = h.id; stream = h.stream; live = h.live; end = h.end })

pub detach_streams-IsAccounted :
    (p : Stream → Bool) (io : ℕ) (r : Registry)
    → IsMap r.streams
    → IsAccounted io r
    → IsAccounted io (detach_streams p r).1
unfolding close_list
detach_streams-IsAccounted p io r d (inl h) = inl (
    detach_streams-keeps (λ q. Has io q.closed) (λ id s q k. k) (λ q k. k)
      (λ ios q k. Has-append io ios q.closed (inr k)) p r d h)
detach_streams-IsAccounted p io r d (inr h) = elim (Bool-cases (is_taken p h.id h.stream)) [
  | inl e ↦
      inl (
        detach_streams-closed p h.id h.stream io r d h.live e (agent_is_endpoint h.stream io h.end))
  | inr e ↦ inr (record {
    id = h.id;
    stream = h.stream;
    live = (detach_streams-survives p h.id h.stream r d).1 (h.live, e);
    end = h.end;
  })
]

-- A held connection stays where the streams change under other ids only.
insert-IsHeld :
    (id : String) (t : Stream) (io : ℕ) (r : Registry)
    → ((s : Stream) → get id r.streams ≡ some s → s.agent_io ≡ some io → t.agent_io ≡ some io)
    → IsHeld io r
    → IsHeld io (record r { streams = insert id t r.streams })
insert-IsHeld id t io r same h = elim (Bool-cases (str_eq id h.id)) [
  | inl e ↦
      let k : get id r.streams ≡ some h.stream = ground (arith, str_eq_iff id h.id, e, h.live) in
      record {
        id = id;
        stream = t;
        live = ground (arith, get-insert id id t r.streams, str_eq_iff id id);
        end = same h.stream k h.end;
      }
  | inr e ↦ record {
    id = h.id;
    stream = h.stream;
    live = ground (arith, get-insert id h.id t r.streams, e, h.live);
    end = h.end;
  }
]

add_stream-IsAccounted :
    (id : String) (creator target : ℕ) (purpose : StreamPurpose) (io : ℕ) (r : Registry)
    → get id r.streams ≡ none
    → IsAccounted io r
    → IsAccounted io (add_stream id creator target purpose r)
unfolding add_stream
add_stream-IsAccounted id creator target purpose io r e (inl k) = inl k
add_stream-IsAccounted id creator target purpose io r e (inr k) =
    let new = new_stream r.next_address creator target purpose in
    let k' = insert-IsHeld id new io r (λ s g f. ground (arith, e, g)) k in
    inr (record { id = k'.id; stream = k'.stream; live = k'.live; end = k'.end })

pub create-IsAccounted :
    (id : String) (creator target : ℕ) (purpose : StreamPurpose) (io : ℕ) (r : Registry)
    → IsAccounted io r
    → IsAccounted io (create_stream_with_purpose id creator target purpose r).1
create-IsAccounted id creator target purpose io r h =
    create-cases (λ q. IsAccounted io q) id creator target purpose r h
      (λ a. add_stream-IsAccounted id creator target purpose io r a.free h)

pub user_connected-IsAccounted :
    (id : String) (other io : ℕ) (r : Registry)
    → IsAccounted io r
    → IsAccounted io (user_connected id other r).1
unfolding user_connected
user_connected-IsAccounted id other io r h = elim (Option-cases (get id r.streams)) [
  | inl e ↦ rw (e, user_connected) h
  | inr e ↦
      let t : Stream = record e.0 { user_io = some other } in
      let next : IsAccounted io (record r { streams = insert id t r.streams }) = elim h [
        | inl k ↦ inl k
        | inr k ↦ inr (insert-IsHeld id t io r (λ s g f. ground (arith, e.1, g, f)) k)
      ] in
      rw (e.1, user_connected) next
]

pub agent_connected-keeps :
    (id : String) (other io : ℕ) (r : Registry)
    → IsAccounted io r
    → IsAccounted io (agent_connected id other r).1
unfolding agent_connected close_list
agent_connected-keeps id other io r h = elim (Option-cases (get id r.streams)) [
  | inl e ↦ rw (e, agent_connected) (close_list-IsAccounted (other ∷ []) io r h)
  | inr e ↦ elim (Option-cases e.0.agent_io) [
    | inr f ↦ rw (e.1, f.1, agent_connected) (close_list-IsAccounted (other ∷ []) io r h)
    | inl f ↦
        let t : Stream = record e.0 { agent_io = some other } in
        let next : IsAccounted io (record r { streams = insert id t r.streams }) = elim h [
          | inl k ↦ inl k
          | inr k ↦ inr (insert-IsHeld id t io r (λ s g i. ground (arith, e.1, g, f, i)) k)
        ] in
        rw (e.1, f, agent_connected) next
  ]
]

pub detach_exact-IsAccounted :
    (id : String) (address io : ℕ) (r : Registry)
    → IsAccounted io r
    → IsAccounted io (detach_exact_stream id address r)
unfolding close_list
detach_exact-IsAccounted id address io r (inl h) =
    detach_exact-cases (λ q. IsAccounted io q) id address r (inl h)
      (λ s g. inl (Has-append io (endpoints s) r.closed (inr h)))
detach_exact-IsAccounted id address io r (inr h) =
    detach_exact-cases (λ q. IsAccounted io q) id address r (inr h)
      (λ s g. elim (Bool-cases (str_eq id h.id)) [
        | inl e ↦
            let same : h.stream ≡ s = ground (arith, str_eq_iff id h.id, e, g, h.live) in
            inl (
              Has-append io (endpoints s) r.closed (
                inl (subst (λ t. Has io (endpoints t)) same (agent_is_endpoint h.stream io h.end))))
        | inr e ↦ inr (record {
          id = h.id;
          stream = h.stream;
          live = ground (arith, get-delete id h.id r.streams, e, h.live);
          end = h.end;
        })
      ])
