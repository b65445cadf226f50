-- ===== src/Streams/Starting.antt =====
-- `startStreamContext` of upstream/nezha/service/rpc/io_stream.go, up to the copying of bytes: the wait for the two ends.
-- What wakes the loop, and the steps of other callers in between, are an argument.
use sakura_monitoring.Base.{
  ℕ, ◌≡◌, ◌≢◌, ◌⊎◌, inl, inr, refl, sym, ◌∙◌, subst, Bool, true, false, ◌&&◌, Option, none, some,
  List, [], ◌∷◌, String, ◌==◌, if◌then◌else◌, string_eq, arith, Bool-cases, Option-cases,
}
use sakura_monitoring.Base.Map.{get}
use sakura_monitoring.Streams.Registry.{Registry, Stream}
use sakura_monitoring.Streams.Steps.{IsRegistry, Step, run}
use sakura_monitoring.Streams.Soundness.{run-IsRegistry}
use sakura_monitoring.Streams.Stability.{IsSame, run-IsFrom}

-- The channel that the `select` received from
pub data Wake : Type 0 where
  user_ready agent_ready revocation timeout : Wake

pub data StartResult : Type 0 where
  relayed : Option ℕ → Option ℕ → StartResult
  stream_not_found stream_revoked timed_out still_waiting : StartResult

-- `current, exists := s.ioStreams[streamId]; !exists || current != stream`
unfoldable pub live_at : String → ℕ → Registry → Option Stream
live_at id address r = elim (get id r.streams) [
  | none ↦ none
  | some s ↦ if s.address == address then some s else none
]

abbrev pub is_some : Option ℕ → Bool
is_some none = false
is_some (some io) = true

-- After the loop the ends are read a second time.
abbrev pub relay : Option Stream → StartResult
relay none = stream_revoked
relay (some s) = relayed s.user_io s.agent_io

-- One turn of the loop, with what the `select` leads to
unfoldable pub turn : String → ℕ → List Step → Registry → StartResult → StartResult
unfolding live_at run
turn id address last r next = elim (live_at id address r) [
  | none ↦ stream_revoked
  | some s ↦
      if is_some s.user_io && is_some s.agent_io
      then relay (live_at id address (run last r))
      else next
]

abbrev pub woken : Wake → StartResult → StartResult
woken user_ready next = next
woken agent_ready next = next
woken revocation next = stream_revoked
woken timeout next = timed_out

-- `startStreamContext`: the steps before the second reading, and what happens in each `select`
unfoldable pub start_stream_context :
    String → ℕ → List Step → List (Wake × List Step) → Registry → StartResult
unfolding turn run
start_stream_context id address last [] r = turn id address last r still_waiting
start_stream_context id address last ((wake, xs) ∷ waits) r =
    turn id address last r (woken wake (start_stream_context id address last waits (run xs r)))

-- `StartStream`
unfoldable pub start_stream : String → List Step → List (Wake × List Step) → Registry → StartResult
unfolding start_stream_context
start_stream id last waits r = elim (get id r.streams) [
  | none ↦ stream_not_found
  | some s ↦ start_stream_context id s.address last waits r
]

live_at-some :
    (id : String) (address : ℕ) (s : Stream) (r : Registry)
    → live_at id address r ≡ some s
    → (get id r.streams ≡ some s) × (s.address ≡ address)
unfolding live_at
live_at-some id address s r e = ground arith

some_of :
    (o p : Option ℕ)
    → (is_some o && is_some p) ≡ true
    → ((io : ℕ) × (o ≡ some io)) × ((io : ℕ) × (p ≡ some io))
some_of none p e = cc
some_of (some u) none e = cc
some_of (some u) (some a) e = ((u, refl), (a, refl))

both_ends :
    (id : String) (address : ℕ) (last : List Step) (r : Registry) (s t : Stream)
    → IsRegistry r
    → live_at id address r ≡ some s
    → (is_some s.user_io && is_some s.agent_io) ≡ true
    → live_at id address (run last r) ≡ some t
    → (t.user_io ≢ none) × (t.agent_io ≢ none)
both_ends id address last r s t h e both f =
    let was = live_at-some id address s r e in
    let now = live_at-some id address t (run last r) f in
    let old = run-IsFrom last r h id t now.0 (ground (arith, was.1, now.1, h.fresh id s was.0)) in
    let same : old.origin ≡ s = ground (arith, old.live, was.0) in
    let kept : IsSame s t = subst (λ x. IsSame x t) same old.same in
    let ends = some_of s.user_io s.agent_io both in
    (kept.user ends.0.0 ends.0.1, λ n. ground (arith, kept.agent ends.1.0 ends.1.1, n))

relayed_inj : (u v a b : Option ℕ) → relayed u a ≡ relayed v b → (u ≡ v) × (a ≡ b)
relayed_inj u v a b e = (cc, cc)

woken-rest :
    (wake : Wake) (next : StartResult) (u a : Option ℕ)
    → woken wake next ≡ relayed u a
    → next ≡ relayed u a
woken-rest user_ready next u a e = e
woken-rest agent_ready next u a e = e
woken-rest revocation next u a e = cc
woken-rest timeout next u a e = cc

turn-both :
    (id : String) (address : ℕ) (last : List Step) (r : Registry) (next : StartResult)
    (u a : Option ℕ)
    → IsRegistry r
    → turn id address last r next ≡ relayed u a
    → (next ≡ relayed u a) ⊎ ((u ≢ none) × (a ≢ none))
unfolding turn
turn-both id address last r next u a h e = elim (Option-cases (live_at id address r)) [
  | inl f ↦ ground (arith, e, f, turn)
  | inr f ↦ elim (Bool-cases (is_some f.0.user_io && is_some f.0.agent_io)) [
    | inr b ↦
        let calc : turn id address last r next ≡ next = rw (f.1, b, turn) refl in inl (sym calc ∙ e)
    | inl b ↦ elim (Option-cases (live_at id address (run last r))) [
      | inl g ↦ ground (arith, e, f.1, b, g, turn)
      | inr g ↦
          let ends = both_ends id address last r f.0 g.0 h f.1 b g.1 in
          let calc : turn id address last r next ≡ relayed g.0.user_io g.0.agent_io =
            rw (f.1, b, g.1, turn) refl in
          let same = relayed_inj g.0.user_io u g.0.agent_io a (sym calc ∙ e) in
          inr (subst (λ o. o ≢ none) same.0 ends.0, subst (λ o. o ≢ none) same.1 ends.1)
    ]
  ]
]

-- Take a sound registry. When the loop of `startStreamContext` ends with the copying between two ends, neither of
-- them is nil, whatever other callers do while it waits and between its two readings of the stream.
pub start_stream_context-both :
    (id : String) (address : ℕ) (last : List Step) (waits : List (Wake × List Step)) (r : Registry)
    (u a : Option ℕ)
    → IsRegistry r
    → start_stream_context id address last waits r ≡ relayed u a
    → (u ≢ none) × (a ≢ none)
unfolding start_stream_context
start_stream_context-both id address last [] r u a h e =
    elim (turn-both id address last r still_waiting u a h e) [ inl f ↦ cc | inr f ↦ f ]
start_stream_context-both id address last ((wake, xs) ∷ waits) r u a h e =
    let rest = start_stream_context id address last waits (run xs r) in
    elim (turn-both id address last r (woken wake rest) u a h e) [
      | inr f ↦ f
      | inl f ↦
          start_stream_context-both id address last waits (run xs r) u a (run-IsRegistry xs r h)
            (woken-rest wake rest u a f)
    ]
