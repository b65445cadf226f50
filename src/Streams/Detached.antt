-- ===== src/Streams/Detached.antt =====
-- What `detachStreams` leaves of the registry, and which connections it closes.
use sakura_monitoring.Base.{
  ℕ, ◌≡◌, inl, inr, ◌↔◌, refl, ap, sym, ◌∙◌, Bool, true, false, some, List, [], ◌∷◌, String,
  string_eq, Has, Has-append, subst,
}
use sakura_monitoring.Base.Map.{get, IsMap}
use sakura_monitoring.Streams.Registry.{Registry, Stream, publish_state_change}
use sakura_monitoring.Streams.Lifecycle.{
  detach_all, take_out, publish_if_any, detach_streams, close_list, all_endpoints, endpoints,
}
use sakura_monitoring.Streams.Detaching.{
  left-some, is_taken, left, HasAll-refl, detach_all-get, detach_all-keeps, detach_all-Has,
}

publish_streams : (ss : List Stream) (r : Registry) → (publish_if_any ss r).streams ≡ r.streams
publish_streams [] r = refl
publish_streams (s ∷ ss) r = refl

publish_closed : (ss : List Stream) (r : Registry) → (publish_if_any ss r).closed ≡ r.closed
publish_closed [] r = refl
publish_closed (s ∷ ss) r = refl

publish_if_any-keeps :
    (P : Registry → Type 0)
    → ((r : Registry) → P r → P (publish_state_change r))
    → (ss : List Stream) (r : Registry) → P r
    → P (publish_if_any ss r)
publish_if_any-keeps P keep [] r h = h
publish_if_any-keeps P keep (s ∷ ss) r h = keep r h

pub detach_streams-get :
    (p : Stream → Bool) (j : String) (r : Registry)
    → IsMap r.streams
    → get j (detach_streams p r).1.streams ≡ left p j (get j r.streams) (get j r.streams)
unfolding detach_streams close_list
detach_streams-get p j r d =
    let all = detach_all p r.streams r in
    ap (get j) (publish_streams all.0 all.1) ∙ detach_all-get p j r.streams r d (HasAll-refl r)

-- The streams that live on are those that the test spares.
pub detach_streams-survives :
    (p : Stream → Bool) (j : String) (s : Stream) (r : Registry)
    → IsMap r.streams
    → (get j (detach_streams p r).1.streams ≡ some s)
      ↔ ((get j r.streams ≡ some s) × (is_taken p j s ≡ false))
detach_streams-survives p j s r d =
    subst (λ o. (o ≡ some s) ↔ ((get j r.streams ≡ some s) × (is_taken p j s ≡ false)))
      (sym (detach_streams-get p j r d)) (left-some p j s (get j r.streams))

-- What removals, publications and closings keep, `detachStreams` keeps.
pub detach_streams-keeps :
    (P : Registry → Type 0)
    → ((id : String) (s : Stream) (r : Registry) → P r → P (take_out id s r))
    → ((r : Registry) → P r → P (publish_state_change r))
    → ((ios : List ℕ) (r : Registry) → P r → P (close_list ios r))
    → (p : Stream → Bool) (r : Registry) → IsMap r.streams
    → P r
    → P (detach_streams p r).1
unfolding detach_streams
detach_streams-keeps P take publish close p r d h =
    let all = detach_all p r.streams r in
    let done = detach_all-keeps P take p r.streams r d (HasAll-refl r) h in
    close (all_endpoints all.0) (publish_if_any all.0 all.1)
      (publish_if_any-keeps P publish all.0 all.1 done)

all_endpoints-Has :
    (x : ℕ) (s : Stream) (ss : List Stream)
    → Has s ss
    → Has x (endpoints s)
    → Has x (all_endpoints ss)
unfolding all_endpoints
all_endpoints-Has x s [] h k = elim h [ ]
all_endpoints-Has x s (t ∷ ss) h k = elim h [
  | inl e ↦
      Has-append x (endpoints t) (all_endpoints ss)
        (inl (subst (λ u. Has x (endpoints u)) (sym e) k))
  | inr e ↦ Has-append x (endpoints t) (all_endpoints ss) (inr (all_endpoints-Has x s ss e k))
]

-- The endpoints of a stream that the test selects are closed.
pub detach_streams-closed :
    (p : Stream → Bool) (j : String) (t : Stream) (x : ℕ) (r : Registry)
    → IsMap r.streams
    → get j r.streams ≡ some t
    → is_taken p j t ≡ true
    → Has x (endpoints t)
    → Has x (detach_streams p r).1.closed
unfolding detach_streams close_list
detach_streams-closed p j t x r d g k h =
    let all = detach_all p r.streams r in
    let taken = detach_all-Has p j t r.streams r d (HasAll-refl r) g k in
    Has-append x (all_endpoints all.0) (publish_if_any all.0 all.1).closed
      (inl (all_endpoints-Has x t all.0 taken h))
