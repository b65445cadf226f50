-- ===== src/Streams/Soundness.antt =====
-- Each id stands once in the registry, and no two streams share an address.
use sakura_monitoring.Base.{◌+◌, ◌≡◌, refl, some, List, String, str_eq_iff, string_eq, arith}
use sakura_monitoring.Base.Map.{get, insert, get-delete, get-insert, delete-IsMap, insert-IsMap}
use sakura_monitoring.Streams.Registry.{Registry, Stream, new_registry, new_stream, add_stream}
use sakura_monitoring.Streams.Lifecycle.{close_list}
use sakura_monitoring.Streams.Preservation.{IsKept, run-IsKept, step-keeps}
use sakura_monitoring.Streams.Steps.{IsRegistry, Step, step, run}

-- A stream that is replaced by one with its address leaves the registry sound.
update-IsRegistry :
    (id : String) (s t : Stream) (r : Registry)
    → get id r.streams ≡ some s
    → t.address ≡ s.address
    → IsRegistry r
    → IsRegistry (record r { streams = insert id t r.streams })
update-IsRegistry id s t r g e h = record {
  is_map = insert-IsMap id t r.streams h.is_map;
  fresh = λ i u f. ground (arith, get-insert id i t r.streams, h.fresh i u, h.fresh id s g, e, f);
  distinct = λ i j u v f k same. ground (
    arith,
    get-insert id i t r.streams,
    get-insert id j t r.streams,
    str_eq_iff id i,
    str_eq_iff id j,
    h.distinct i j u v,
    h.distinct id j s v g,
    h.distinct i id u s,
  );
}

add-IsRegistry :
    (id : String) (s : Stream) (r : Registry)
    → s.address ≡ r.next_address
    → IsRegistry r
    → IsRegistry (record r { streams = insert id s r.streams; next_address = r.next_address + 1 })
add-IsRegistry id s r e h = record {
  is_map = insert-IsMap id s r.streams h.is_map;
  fresh = λ i u f. ground (arith, get-insert id i s r.streams, h.fresh i u, e, f);
  distinct = λ i j u v f k same. ground (
    arith,
    get-insert id i s r.streams,
    get-insert id j s r.streams,
    str_eq_iff id i,
    str_eq_iff id j,
    h.distinct i j u v,
    h.fresh i u,
    h.fresh j v,
  );
}

pub sound-IsKept : IsKept IsRegistry
unfolding add_stream close_list
sound-IsKept = record {
  is_map = λ r h. h.is_map;
  take = λ id s r h. record {
    is_map = delete-IsMap id r.streams h.is_map;
    fresh = λ i u f. ground (arith, get-delete id i r.streams, h.fresh i u);
    distinct = λ i j u v f k same.
        ground (arith, get-delete id i r.streams, get-delete id j r.streams, h.distinct i j u v);
  };
  publish = λ r h. record { is_map = h.is_map; fresh = h.fresh; distinct = h.distinct };
  close = λ ios r h. record { is_map = h.is_map; fresh = h.fresh; distinct = h.distinct };
  add = λ id creator target purpose r a h.
      let k = add-IsRegistry id (new_stream r.next_address creator target purpose) r refl h in
      record { is_map = k.is_map; fresh = k.fresh; distinct = k.distinct };
  user = λ id s io r g h. update-IsRegistry id s (record s { user_io = some io }) r g refl h;
  agent = λ id s io r g e h. update-IsRegistry id s (record s { agent_io = some io }) r g refl h;
}

pub new-IsRegistry : IsRegistry new_registry
unfolding get
new-IsRegistry = record { is_map = tt; fresh = λ i u f. cc; distinct = λ i j u v f k e. cc }

pub run-IsRegistry : (xs : List Step) (r : Registry) → IsRegistry r → IsRegistry (run xs r)
run-IsRegistry xs r h = run-IsKept IsRegistry sound-IsKept xs r h

pub step-IsRegistry : (x : Step) (r : Registry) → IsRegistry r → IsRegistry (step x r)
step-IsRegistry x r h = step-keeps IsRegistry sound-IsKept x r h
