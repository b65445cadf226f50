-- ===== src/Streams/Stability.antt =====
-- A stream keeps what it was opened with, and the agent that came first.
use sakura_monitoring.Base.{
  ℕ, ◌<◌, ◌≡◌, ◌≤◌, ◌≢◌, Option-cases, inl, inr, Bool-cases, refl, sym, ap, ◌∙◌, subst, none, some,
  List, String, str_eq, str_eq_iff, string_eq, arith,
}
use sakura_monitoring.Base.Map.{get, insert, get-insert, get-delete}
use sakura_monitoring.Streams.Registry.{Registry, Stream, new_stream, add_stream}
use sakura_monitoring.Streams.Lifecycle.{close_list}
use sakura_monitoring.Streams.Preservation.{IsKept, run-IsKept}
use sakura_monitoring.Streams.Soundness.{sound-IsKept}
use sakura_monitoring.Streams.Steps.{IsRegistry, Step, run}

-- The stream as it was opened, with the agent's end once it is there.
pub record IsSame (s t : Stream) : Type 0 where
  pub creator : t.creator_user_id ≡ s.creator_user_id
  pub target : t.target_server_id ≡ s.target_server_id
  pub purpose : t.purpose ≡ s.purpose
  pub agent : (io : ℕ) → s.agent_io ≡ some io → t.agent_io ≡ some io
  pub user : (io : ℕ) → s.user_io ≡ some io → t.user_io ≢ none

IsSame-trans : (s t u : Stream) → IsSame s t → IsSame t u → IsSame s u
IsSame-trans s t u f g = record {
  creator = g.creator ∙ f.creator;
  target = g.target ∙ f.target;
  purpose = g.purpose ∙ f.purpose;
  agent = λ io e. g.agent io (f.agent io e);
  user = λ io e. elim (Option-cases t.user_io) [
    | inl n ↦ elim (f.user io e n) [ ]
    | inr y ↦ g.user y.0 y.1
  ];
}

IsSame-refl : (s : Stream) → IsSame s s
IsSame-refl s = record {
  creator = refl;
  target = refl;
  purpose = refl;
  agent = λ io e. e;
  user = λ io e n. cc;
}

-- The stream was live under the id before.
pub record IsFrom (id : String) (t : Stream) (r : Registry) : Type 0 where
  pub origin : Stream
  pub live : get id r.streams ≡ some origin
  pub address : t.address ≡ origin.address
  pub same : IsSame origin t

-- Every stream that is not new since an earlier registry was there before, under its id.
record IsLater (r q : Registry) : Type 0 where
  sound : IsRegistry q
  later : r.next_address ≤ q.next_address
  from :
      (id : String) (t : Stream)
      → get id q.streams ≡ some t
      → t.address < r.next_address
      → IsFrom id t r

update-IsLater :
    (r q : Registry) (j : String) (t u : Stream)
    → get j q.streams ≡ some t
    → u.address ≡ t.address
    → IsSame t u
    → IsLater r q
    → (k : String) (v : Stream) → get k (insert j u q.streams) ≡ some v
    → v.address < r.next_address
    → IsFrom k v r
update-IsLater r q j t u g e f h k v l m = elim (Bool-cases (str_eq j k)) [
  | inr n ↦ h.from k v (ground (arith, get-insert j k u q.streams, n, l)) m
  | inl y ↦
      let here : get k q.streams ≡ some t = ground (arith, str_eq_iff j k, y, g) in
      let same : v ≡ u = ground (arith, get-insert j k u q.streams, y, l) in
      let w = h.from k t here (ground (arith, same, e, m)) in
      record {
        origin = w.origin;
        live = w.live;
        address = ap (λ x. x.address) same ∙ e ∙ w.address;
        same = subst (λ x. IsSame w.origin x) (sym same) (IsSame-trans w.origin t u w.same f);
      }
]

IsLater-IsKept : (r : Registry) → IsKept (λ q. IsLater r q)
unfolding add_stream close_list
IsLater-IsKept r = record {
  is_map = λ q h. h.sound.is_map;
  take = λ j t q h. record {
    sound = sound-IsKept.take j t q h.sound;
    later = h.later;
    from = λ k v l m. h.from k v (ground (arith, get-delete j k q.streams, l)) m;
  };
  publish =
      λ q h. record { sound = sound-IsKept.publish q h.sound; later = h.later; from = h.from };
  close = λ ios q h. record {
    sound = sound-IsKept.close ios q h.sound;
    later = h.later;
    from = h.from;
  };
  add = λ j creator target purpose q a h.
      let new = new_stream q.next_address creator target purpose in
      record {
        sound = sound-IsKept.add j creator target purpose q a h.sound;
        later = omega (arith, h.later);
        from =
            λ k v l m. h.from k v (ground (arith, get-insert j k new q.streams, h.later, l, m)) m;
      };
  user = λ j t io q g h.
      let u : Stream = record t { user_io = some io } in
      let same : IsSame t u = record {
        creator = refl;
        target = refl;
        purpose = refl;
        agent = λ n e. e;
        user = λ n e m. cc;
      } in
      record {
        sound = sound-IsKept.user j t io q g h.sound;
        later = h.later;
        from = update-IsLater r q j t u g refl same h;
      };
  agent = λ j t io q g e h.
      let u : Stream = record t { agent_io = some io } in
      let same : IsSame t u = record {
        creator = refl;
        target = refl;
        purpose = refl;
        agent = λ n f. ground (arith, e, f);
        user = λ n f m. cc;
      } in
      record {
        sound = sound-IsKept.agent j t io q g e h.sound;
        later = h.later;
        from = update-IsLater r q j t u g refl same h;
      };
}

-- Take a sound registry and any run from it. A stream that lives at the end and whose address was given out before
-- the run was live at the start under the same id, with the same creator, server and
-- purpose, and if it had an agent's end then, it still has the same one.
pub run-IsFrom :
    (xs : List Step) (r : Registry)
    → IsRegistry r
    → (id : String) (t : Stream) → get id (run xs r).streams ≡ some t
    → t.address < r.next_address
    → IsFrom id t r
run-IsFrom xs r h =
    let start : IsLater r r = record {
      sound = h;
      later = omega arith;
      from = λ id t g m. record { origin = t; live = g; address = refl; same = IsSame-refl t };
    } in
    (run-IsKept (λ q. IsLater r q) (IsLater-IsKept r) xs r start).from
