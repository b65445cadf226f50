-- ===== src/Streams/Detaching.antt =====
-- What the loop of `detachStreams` takes out of the registry.
use sakura_monitoring.Base.{
  ◌≡◌, inl, inr, ◌↔◌, refl, Bool, true, false, not, ◌&&◌, Option, none, some, List, [], ◌∷◌, String,
  str_eq, str_eq_iff, ==_iff, if◌then◌else◌, string_eq, arith, Bool-cases, Has,
}
use sakura_monitoring.Base.Map.{Map, get, get-delete, IsMap}
use sakura_monitoring.Streams.Registry.{Registry, Stream}
use sakura_monitoring.Streams.Lifecycle.{detach_stream, detach_if, detach_all, take_out, prepend}

-- The streams that a loop over the entries must still find in the registry.
abbrev pub HasAll : Map String Stream → Registry → Type 0
HasAll m r = (id : String) (s : Stream) → get id m ≡ some s → get id r.streams ≡ some s

-- Whether the loop takes a stream out.
unfoldable pub is_taken : (Stream → Bool) → String → Stream → Bool
is_taken p id s = p s && not (str_eq id "")

-- What the loop leaves of the entry of an id.
abbrev pub left : (Stream → Bool) → String → Option Stream → Option Stream → Option Stream
left p id none now = now
left p id (some s) now = if is_taken p id s then none else now

pub left-some :
    (p : Stream → Bool) (id : String) (s : Stream) (o : Option Stream)
    → (left p id o o ≡ some s) ↔ ((o ≡ some s) × (is_taken p id s ≡ false))
left-some p id s none = ground arith
left-some p id s (some t) = ground arith

pub detach_if-taken :
    (p : Stream → Bool) (id : String) (s : Stream) (r : Registry)
    → get id r.streams ≡ some s
    → detach_if p id s r ≡ (if is_taken p id s then (some s, take_out id s r) else (none, r))
unfolding detach_if detach_stream is_taken
detach_if-taken p id s r g = elim (Bool-cases (p s)) [
  | inl e ↦ elim (Bool-cases (str_eq id "")) [
    | inl f ↦ rw (e, f) refl
    | inr f ↦ rw (e, f, g, (==_iff s.address s.address).1 refl) refl
  ]
  | inr e ↦ rw e refl
]

pub detach_if-get :
    (p : Stream → Bool) (id j : String) (s : Stream) (r : Registry)
    → get id r.streams ≡ some s
    → get j (detach_if p id s r).1.streams
      ≡ (if is_taken p id s && str_eq id j then none else get j r.streams)
detach_if-get p id j s r g = elim (Bool-cases (is_taken p id s)) [
  | inl e ↦ rw (detach_if-taken p id s r g, e) (get-delete id j r.streams)
  | inr e ↦ rw (detach_if-taken p id s r g, e) refl
]

-- What a loop iteration keeps of a registry that each removal keeps.
pub detach_if-keeps :
    (P : Registry → Type 0)
    → ((id : String) (s : Stream) (r : Registry) → P r → P (take_out id s r))
    → (p : Stream → Bool) (id : String) (s : Stream) (r : Registry) → get id r.streams ≡ some s
    → P r
    → P (detach_if p id s r).1
detach_if-keeps P keep p id s r g h = elim (Bool-cases (is_taken p id s)) [
  | inl e ↦ rw (detach_if-taken p id s r g, e) (keep id s r h)
  | inr e ↦ rw (detach_if-taken p id s r g, e) h
]

pub HasAll-rest :
    (p : Stream → Bool) (id : String) (s : Stream) (m : Map String Stream) (r : Registry)
    → IsMap ((id, s) ∷ m)
    → HasAll ((id, s) ∷ m) r
    → HasAll m (detach_if p id s r).1
unfolding get
HasAll-rest p id s m r d h j t g =
    let first = h id s (ground (arith, str_eq_iff id id)) in
    let here = h j t in
    ground (arith, detach_if-get p id j s r first, here, str_eq_iff id j, d.0, g)

head-get :
    (id : String) (s : Stream) (m : Map String Stream) (r : Registry)
    → HasAll ((id, s) ∷ m) r
    → get id r.streams ≡ some s
unfolding get
head-get id s m r h = h id s (ground (arith, str_eq_iff id id))

-- After the loop an id is left alone, or gone where its stream was taken.
pub detach_all-get :
    (p : Stream → Bool) (j : String) (m : Map String Stream) (r : Registry)
    → IsMap m
    → HasAll m r
    → get j (detach_all p m r).1.streams ≡ left p j (get j m) (get j r.streams)
unfolding detach_all get
detach_all-get p j [] r d h = refl
detach_all-get p j ((id, s) ∷ m) r d h =
    let r' = (detach_if p id s r).1 in
    let now = detach_if-get p id j s r (head-get id s m r h) in
    let rest = detach_all-get p j m r' d.1 (HasAll-rest p id s m r d h) in
    ground (arith, now, rest, str_eq_iff id j, d.0)

-- What every removal keeps holds after the loop.
pub detach_all-keeps :
    (P : Registry → Type 0)
    → ((id : String) (s : Stream) (r : Registry) → P r → P (take_out id s r))
    → (p : Stream → Bool) (m : Map String Stream) (r : Registry) → IsMap m
    → HasAll m r
    → P r
    → P (detach_all p m r).1
unfolding detach_all
detach_all-keeps P keep p [] r d h q = q
detach_all-keeps P keep p ((id, s) ∷ m) r d h q =
    let first = detach_if-keeps P keep p id s r (head-get id s m r h) q in
    detach_all-keeps P keep p m (detach_if p id s r).1 d.1 (HasAll-rest p id s m r d h) first

prepend-Has : (o : Option Stream) (s : Stream) (ss : List Stream) → Has s ss → Has s (prepend o ss)
prepend-Has none s ss h = h
prepend-Has (some t) s ss h = inr h

-- A stream that the test selects is among those that the loop hands back.
pub detach_all-Has :
    (p : Stream → Bool) (j : String) (t : Stream) (m : Map String Stream) (r : Registry)
    → IsMap m
    → HasAll m r
    → get j m ≡ some t
    → is_taken p j t ≡ true
    → Has t (detach_all p m r).0
unfolding detach_all get
detach_all-Has p j t [] r d h g k = cc
detach_all-Has p j t ((id, s) ∷ m) r d h g k = elim (Bool-cases (str_eq id j)) [
  | inl e ↦
      let same : s ≡ t = ground (arith, e, g) in
      let here : is_taken p id s ≡ true = ground (arith, e, same, k, str_eq_iff id j) in
      rw (detach_if-taken p id s r (head-get id s m r h), here) (inl same)
  | inr e ↦
      let r' = (detach_if p id s r).1 in
      let g' : get j m ≡ some t = ground (arith, e, g) in
      prepend-Has (detach_if p id s r).0 t (detach_all p m r').0
        (detach_all-Has p j t m r' d.1 (HasAll-rest p id s m r d h) g' k)
]

pub HasAll-refl : (r : Registry) → HasAll r.streams r
HasAll-refl r id s g = g
