-- ===== src/Streams/Quota.antt =====
-- The quotas of `createStreamLocked` along any run of the registry.
use sakura_monitoring.Base.{
  ℕ, ◌+◌, ◌≤◌, ◌≡◌, ◌≢◌, refl, Bool, none, some, List, [], ◌∷◌, String, if◌then◌else◌, string_eq,
  arith,
}
use sakura_monitoring.Base.Map.{Map, get, delete, insert, IsMap, delete-IsMap, insert-IsMap}
use sakura_monitoring.Streams.Registry.{
  Registry, Stream, new_registry, new_stream, count, is_created_by, is_aimed_at,
  max_streams_per_user, max_streams_per_server, add_stream,
}
use sakura_monitoring.Streams.Lifecycle.{close_list}
use sakura_monitoring.Streams.Preservation.{IsKept, run-IsKept}
use sakura_monitoring.Streams.Steps.{Step, run}

count-insert :
    (p : Stream → Bool) (id : String) (s : Stream) (m : Map String Stream)
    → get id m ≡ none
    → count p (insert id s m) ≡ (if p s then count p m + 1 else count p m)
unfolding count insert get
count-insert p id s [] g = refl
count-insert p id s ((j, t) ∷ m) g = ground (arith, count-insert p id s m)

count-update :
    (p : Stream → Bool) (id : String) (s t : Stream) (m : Map String Stream)
    → get id m ≡ some s
    → p t ≡ p s
    → count p (insert id t m) ≡ count p m
unfolding count insert get
count-update p id s t [] g e = cc
count-update p id s t ((j, u) ∷ m) g e = ground (arith, count-update p id s t m)

count-delete :
    (p : Stream → Bool) (id : String) (m : Map String Stream) → count p (delete id m) ≤ count p m
unfolding count delete
count-delete p id [] = omega arith
count-delete p id ((j, t) ∷ m) = ground (arith, count-delete p id m)

-- No user but the dashboard itself, which is user 0, has more streams than the quota, and no server.
pub record IsWithinQuota (r : Registry) : Type 0 where
  pub is_map : IsMap r.streams
  pub of_user : (user : ℕ) → user ≢ 0 → count (is_created_by user) r.streams ≤ max_streams_per_user
  pub of_server : (server : ℕ) → count (is_aimed_at server) r.streams ≤ max_streams_per_server

quota-IsKept : IsKept IsWithinQuota
unfolding add_stream close_list
quota-IsKept = record {
  is_map = λ r h. h.is_map;
  take = λ id s r h. record {
    is_map = delete-IsMap id r.streams h.is_map;
    of_user = λ u n. omega (arith, count-delete (is_created_by u) id r.streams, h.of_user u n);
    of_server = λ v. omega (arith, count-delete (is_aimed_at v) id r.streams, h.of_server v);
  };
  publish = λ r h. record { is_map = h.is_map; of_user = h.of_user; of_server = h.of_server };
  close = λ ios r h. record { is_map = h.is_map; of_user = h.of_user; of_server = h.of_server };
  add = λ id creator target purpose r a h.
      let s = new_stream r.next_address creator target purpose in
      record {
        is_map = insert-IsMap id s r.streams h.is_map;
        of_user = λ u n. ground (
          arith,
          count-insert (is_created_by u) id s r.streams a.free,
          h.of_user u n,
          a.user_room,
        );
        of_server = λ v. ground (
          arith,
          count-insert (is_aimed_at v) id s r.streams a.free,
          h.of_server v,
          a.server_room,
        );
      };
  user = λ id s io r g h.
      let t : Stream = record s { user_io = some io } in
      record {
        is_map = insert-IsMap id t r.streams h.is_map;
        of_user = λ u n.
            omega (arith, count-update (is_created_by u) id s t r.streams g refl, h.of_user u n);
        of_server =
            λ v. omega (arith, count-update (is_aimed_at v) id s t r.streams g refl, h.of_server v);
      };
  agent = λ id s io r g e h.
      let t : Stream = record s { agent_io = some io } in
      record {
        is_map = insert-IsMap id t r.streams h.is_map;
        of_user = λ u n.
            omega (arith, count-update (is_created_by u) id s t r.streams g refl, h.of_user u n);
        of_server =
            λ v. omega (arith, count-update (is_aimed_at v) id s t r.streams g refl, h.of_server v);
      };
}

-- However the streams are opened, attached and ended, from the empty registry no user other than
-- the dashboard's user 0 ever has more than 20 live streams, and no server more than 40.
pub run-IsWithinQuota : (xs : List Step) → IsWithinQuota (run xs new_registry)
unfolding count
run-IsWithinQuota xs =
    run-IsKept IsWithinQuota quota-IsKept xs new_registry
      (record { is_map = tt; of_user = λ u n. omega arith; of_server = λ v. omega arith })
