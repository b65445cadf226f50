-- ===== src/Streams/Preservation.antt =====
-- The changes that the steps of the registry are made of: what each change keeps, every run keeps.
use sakura_monitoring.Base.{
  ℕ, ◌<◌, ◌≡◌, ◌≢◌, inl, inr, refl, sym, subst, Bool, not, ◌&&◌, none, some, List, [], ◌∷◌, String,
  str_eq, ◌==◌, string_eq, arith, Bool-cases, Option-cases, leb,
}
use sakura_monitoring.Base.Map.{get, insert, IsMap}
use sakura_monitoring.Streams.Registry.{
  Registry, Stream, StreamPurpose, count, is_created_by, is_aimed_at, max_streams_per_user,
  max_streams_per_server, publish_state_change, add_stream, create_stream_with_purpose,
  user_connected, agent_connected,
}
use sakura_monitoring.Streams.Lifecycle.{
  take_out, close_list, detach_stream, detach_streams, detach_exact_stream, finish_detach,
  close_stream, revoke_streams_for_server, revoke_streams_for_purpose, is_live_as, is_for,
  endpoints,
}
use sakura_monitoring.Streams.Detached.{detach_streams-keeps}
use sakura_monitoring.Streams.Steps.{
  Step, step, run, run-keeps, creates, user_connects, agent_connects, closes, closes_exact,
  revokes_server, revokes_purpose,
}

-- What `createStreamLocked` has tested before it adds a stream.
pub record IsAdmitted (id : String) (creator target : ℕ) (r : Registry) : Type 0 where
  pub free : get id r.streams ≡ none
  pub user_room : creator ≢ 0 → count (is_created_by creator) r.streams < max_streams_per_user
  pub server_room : count (is_aimed_at target) r.streams < max_streams_per_server

abbrev pub set_user_io : String → Stream → ℕ → Registry → Registry
set_user_io id s io r = record r { streams = insert id (record s { user_io = some io }) r.streams }

abbrev pub set_agent_io : String → Stream → ℕ → Registry → Registry
set_agent_io id s io r = record r {
  streams = insert id (record s { agent_io = some io }) r.streams;
}

pub record IsKept (P : Registry → Type 0) : Type 0 where
  pub is_map : (r : Registry) → P r → IsMap r.streams
  pub take : (id : String) (s : Stream) (r : Registry) → P r → P (take_out id s r)
  pub publish : (r : Registry) → P r → P (publish_state_change r)
  pub close : (ios : List ℕ) (r : Registry) → P r → P (close_list ios r)
  pub add :
      (id : String) (creator target : ℕ) (purpose : StreamPurpose) (r : Registry)
      → IsAdmitted id creator target r
      → P r
      → P (add_stream id creator target purpose r)
  pub user :
      (id : String) (s : Stream) (io : ℕ) (r : Registry)
      → get id r.streams ≡ some s
      → P r
      → P (set_user_io id s io r)
  pub agent :
      (id : String) (s : Stream) (io : ℕ) (r : Registry)
      → get id r.streams ≡ some s
      → s.agent_io ≡ none
      → P r
      → P (set_agent_io id s io r)

pub create-cases :
    (P : Registry → Type 0) (id : String) (creator target : ℕ) (purpose : StreamPurpose)
    (r : Registry)
    → P r
    → (IsAdmitted id creator target r → P (add_stream id creator target purpose r))
    → P (create_stream_with_purpose id creator target purpose r).1
unfolding create_stream_with_purpose
create-cases P id creator target purpose r h add = elim (Option-cases (get id r.streams)) [
  | inr e ↦ rw (e.1, create_stream_with_purpose) h
  | inl e ↦
      elim (Bool-cases (
        not (creator == 0) && leb max_streams_per_user (count (is_created_by creator) r.streams))) [
          | inl f ↦ rw (e, f, create_stream_with_purpose) h
          | inr f ↦
              elim (Bool-cases
                (leb max_streams_per_server (count (is_aimed_at target) r.streams))) [
                  | inl g ↦ rw (e, f, g, create_stream_with_purpose) h
                  | inr g ↦
                      let admitted : IsAdmitted id creator target r = record {
                        free = e;
                        user_room = λ n. ground (arith, f, n);
                        server_room = ground (arith, g);
                      } in
                      rw (e, f, g, create_stream_with_purpose) (add admitted)
                ]
        ]
]

pub detach_exact-cases :
    (P : Registry → Type 0) (id : String) (address : ℕ) (r : Registry)
    → P r
    → ((s : Stream)
        → get id r.streams ≡ some s
        → P (close_list (endpoints s) (publish_state_change (take_out id s r))))
    → P (detach_exact_stream id address r)
unfolding detach_exact_stream finish_detach detach_stream
detach_exact-cases P id address r h out = elim (Bool-cases (str_eq id "")) [
  | inl e ↦ rw (e, detach_exact_stream, detach_stream) h
  | inr e ↦ elim (Option-cases (get id r.streams)) [
    | inl f ↦ rw (e, f, detach_exact_stream, detach_stream) h
    | inr f ↦ elim (Bool-cases (f.0.address == address)) [
      | inl g ↦
          let taken : detach_stream id address r ≡ (some f.0, take_out id f.0 r) =
            rw (e, f.1, g, detach_stream) refl in
          subst (λ o. P (finish_detach r o)) (sym taken) (out f.0 f.1)
      | inr g ↦ rw (e, f.1, g, detach_exact_stream, detach_stream) h
    ]
  ]
]

module _ (P : Registry → Type 0) (k : IsKept P) where
  detach_exact-keeps :
      (id : String) (address : ℕ) (r : Registry) → P r → P (detach_exact_stream id address r)
  detach_exact-keeps id address r h =
      detach_exact-cases P id address r h
        (λ s g. k.close (endpoints s) _ (k.publish _ (k.take id s r h)))

  detach-keeps : (p : Stream → Bool) (r : Registry) → P r → P (detach_streams p r).1
  detach-keeps p r h = detach_streams-keeps P k.take k.publish k.close p r (k.is_map r h) h

  user-keeps : (id : String) (io : ℕ) (r : Registry) → P r → P (user_connected id io r).1
  unfolding user_connected
  user-keeps id io r h = elim (Option-cases (get id r.streams)) [
    | inl e ↦ rw (e, user_connected) h
    | inr e ↦ rw (e.1, user_connected) (k.user id e.0 io r e.1 h)
  ]

  agent-keeps : (id : String) (io : ℕ) (r : Registry) → P r → P (agent_connected id io r).1
  unfolding agent_connected close_list
  agent-keeps id io r h = elim (Option-cases (get id r.streams)) [
    | inl e ↦ rw (e, agent_connected) (k.close (io ∷ []) r h)
    | inr e ↦ elim (Option-cases e.0.agent_io) [
      | inl f ↦ rw (e.1, f, agent_connected) (k.agent id e.0 io r e.1 f h)
      | inr f ↦ rw (e.1, f.1, agent_connected) (k.close (io ∷ []) r h)
    ]
  ]

  pub step-keeps : (x : Step) (r : Registry) → P r → P (step x r)
  unfolding step close_stream revoke_streams_for_server revoke_streams_for_purpose
  step-keeps (creates id creator target purpose) r h =
      create-cases P id creator target purpose r h (λ a. k.add id creator target purpose r a h)
  step-keeps (user_connects id io) r h = user-keeps id io r h
  step-keeps (agent_connects id io) r h = agent-keeps id io r h
  step-keeps (closes id) r h = detach-keeps (is_live_as id r) r h
  step-keeps (closes_exact id address) r h = detach_exact-keeps id address r h
  step-keeps (revokes_server server) r h = elim (Bool-cases (server == 0)) [
    | inl e ↦ rw e h
    | inr e ↦ rw e (detach-keeps (is_aimed_at server) r h)
  ]
  step-keeps (revokes_purpose purpose) r h = detach-keeps (is_for purpose) r h

  pub run-IsKept : (xs : List Step) (r : Registry) → P r → P (run xs r)
  run-IsKept xs r h = run-keeps P step-keeps xs r h
