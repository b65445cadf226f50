-- ===== src/Streams/Agents.antt =====
-- The connections of the agents along any run of the registry.
use sakura_monitoring.Base.{
  ℕ, inl, inr, subst, Bool-cases, Option, none, some, List, [], ◌∷◌, ◌++◌, Has, Has-split, ◌==◌,
}
use sakura_monitoring.Streams.Registry.{Registry, is_aimed_at, agent_connected}
use sakura_monitoring.Streams.Lifecycle.{
  option_list, close_stream, revoke_streams_for_server, revoke_streams_for_purpose, is_live_as,
  is_for,
}
use sakura_monitoring.Streams.Steps.{
  IsRegistry, Step, step, run, creates, user_connects, agent_connects, closes, closes_exact,
  revokes_server, revokes_purpose,
}
use sakura_monitoring.Streams.Soundness.{step-IsRegistry}
use sakura_monitoring.Streams.Endpoints.{
  IsAccounted, create-IsAccounted, user_connected-IsAccounted, agent_connected-keeps,
  agent_connected-IsAccounted, detach_streams-IsAccounted, detach_exact-IsAccounted,
}

-- The connection that an agent hands over in a step.
abbrev pub handed_by : Step → Option ℕ
handed_by (agent_connects id io) = some io
handed_by x = none

-- The connections that the agents of a run hand over.
unfoldable pub handed_over : List Step → List ℕ
handed_over [] = []
handed_over (x ∷ xs) = option_list (handed_by x) ++ handed_over xs

step-IsAccounted :
    (x : Step) (io : ℕ) (r : Registry) → IsRegistry r → IsAccounted io r → IsAccounted io (step x r)
unfolding step close_stream revoke_streams_for_server revoke_streams_for_purpose
step-IsAccounted (creates id creator target purpose) io r h a =
    create-IsAccounted id creator target purpose io r a
step-IsAccounted (user_connects id other) io r h a = user_connected-IsAccounted id other io r a
step-IsAccounted (agent_connects id other) io r h a = agent_connected-keeps id other io r a
step-IsAccounted (closes id) io r h a = detach_streams-IsAccounted (is_live_as id r) io r h.is_map a
step-IsAccounted (closes_exact id address) io r h a = detach_exact-IsAccounted id address io r a
step-IsAccounted (revokes_server server) io r h a = elim (Bool-cases (server == 0)) [
  | inl e ↦ rw (e, revoke_streams_for_server) a
  | inr e ↦
      rw (e, revoke_streams_for_server)
        (detach_streams-IsAccounted (is_aimed_at server) io r h.is_map a)
]
step-IsAccounted (revokes_purpose purpose) io r h a =
    detach_streams-IsAccounted (is_for purpose) io r h.is_map a

run-keeps_IsAccounted :
    (xs : List Step) (io : ℕ) (r : Registry)
    → IsRegistry r
    → IsAccounted io r
    → IsAccounted io (run xs r)
unfolding run
run-keeps_IsAccounted [] io r h a = a
run-keeps_IsAccounted (x ∷ xs) io r h a =
    run-keeps_IsAccounted xs io (step x r) (step-IsRegistry x r h) (step-IsAccounted x io r h a)

handed_by-IsAccounted :
    (x : Step) (io : ℕ) (r : Registry)
    → Has io (option_list (handed_by x))
    → IsAccounted io (step x r)
unfolding step
handed_by-IsAccounted (agent_connects id other) io r (inl e) =
    subst (λ n. IsAccounted n (agent_connected id other r).1) e
      (agent_connected-IsAccounted id other r)
handed_by-IsAccounted (agent_connects id other) io r (inr h) = elim h [ ]
handed_by-IsAccounted (creates _ _ _ _) io r h = elim h [ ]
handed_by-IsAccounted (user_connects _ _) io r h = elim h [ ]
handed_by-IsAccounted (closes _) io r h = elim h [ ]
handed_by-IsAccounted (closes_exact _ _) io r h = elim h [ ]
handed_by-IsAccounted (revokes_server _) io r h = elim h [ ]
handed_by-IsAccounted (revokes_purpose _) io r h = elim h [ ]

-- However a run from a sound registry goes on, a connection that an agent handed over in it is either
-- closed at its end or the agent's end of a live stream: none is lost.
pub run-IsAccounted :
    (xs : List Step) (io : ℕ) (r : Registry)
    → IsRegistry r
    → Has io (handed_over xs)
    → IsAccounted io (run xs r)
unfolding run handed_over
run-IsAccounted [] io r h k = elim k [ ]
run-IsAccounted (x ∷ xs) io r h k =
    elim (Has-split io (option_list (handed_by x)) (handed_over xs) k) [
      | inl e ↦
          run-keeps_IsAccounted xs io (step x r) (step-IsRegistry x r h)
            (handed_by-IsAccounted x io r e)
      | inr e ↦ run-IsAccounted xs io (step x r) (step-IsRegistry x r h) e
    ]
