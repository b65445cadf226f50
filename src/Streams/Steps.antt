-- ===== src/Streams/Steps.antt =====
-- A run of the registry: any callers, in any order, each operation one step.
use sakura_monitoring.Base.{ℕ, ◌<◌, ◌≡◌, some, List, [], ◌∷◌, String, string_eq}
use sakura_monitoring.Base.Map.{IsMap, get}
use sakura_monitoring.Streams.Registry.{
  Registry, Stream, StreamPurpose, create_stream_with_purpose, user_connected, agent_connected,
}
use sakura_monitoring.Streams.Lifecycle.{
  close_stream, detach_exact_stream, revoke_streams_for_server, revoke_streams_for_purpose,
}

pub data Step : Type 0 where
  creates : String → ℕ → ℕ → StreamPurpose → Step
  user_connects agent_connects : String → ℕ → Step
  closes : String → Step
  closes_exact : String → ℕ → Step
  revokes_server : ℕ → Step
  revokes_purpose : StreamPurpose → Step

unfoldable pub step : Step → Registry → Registry
unfolding create_stream_with_purpose user_connected agent_connected close_stream detach_exact_stream
    revoke_streams_for_server revoke_streams_for_purpose
step (creates id creator target purpose) r =
    (create_stream_with_purpose id creator target purpose r).1
step (user_connects id io) r = (user_connected id io r).1
step (agent_connects id io) r = (agent_connected id io r).1
step (closes id) r = close_stream id r
step (closes_exact id address) r = detach_exact_stream id address r
step (revokes_server server) r = revoke_streams_for_server server r
step (revokes_purpose purpose) r = (revoke_streams_for_purpose purpose r).1

unfoldable pub run : List Step → Registry → Registry
unfolding step
run [] r = r
run (x ∷ xs) r = run xs (step x r)

-- What holds of a registry at every step of a run is preserved by the run.
pub run-keeps :
    (P : Registry → Type 0)
    → ((x : Step) (r : Registry) → P r → P (step x r))
    → (xs : List Step) (r : Registry) → P r
    → P (run xs r)
unfolding run
run-keeps P keep [] r h = h
run-keeps P keep (x ∷ xs) r h = run-keeps P keep xs (step x r) (keep x r h)

-- What every step preserves: each id stands once, and no two streams have the same address.
pub record IsRegistry (r : Registry) : Type 0 where
  pub is_map : IsMap r.streams
  pub fresh : (id : String) (s : Stream) → get id r.streams ≡ some s → s.address < r.next_address
  pub distinct :
      (i j : String) (s t : Stream)
      → get i r.streams ≡ some s
      → get j r.streams ≡ some t
      → s.address ≡ t.address
      → i ≡ j
