-- ===== src/Transfer/Broker/Tests.antt =====
-- A run of the event broker, and the theorems at it.
use sakura_monitoring.Base.{◌≡◌, ◌<◌, ◌≤◌, refl, List, [], ◌∷◌, arith, length, none, ◌⊎◌, nat_eq}
use sakura_monitoring.Base.Map.{get, insert, delete}
use sakura_monitoring.Transfer.Types.{ServerTransfer, pending}
use sakura_monitoring.Transfer.Broker.{
  new, per_user, global, next_id, admit, subscribe, discount, unsubscribe, offer_all, offer,
  broadcast, Op, subscribes, unsubscribes, broadcasts, step, run, count_of, subscribed,
}
use sakura_monitoring.Transfer.Broker.Counts.{IsSound, new-IsSound, run-IsSound, subscribe-refused}

abbrev event : ServerTransfer
event = record {
  id = 5;
  server_id = 1;
  from_user_id = 10;
  to_user_id = 20;
  initiator_id = 10;
  status = pending;
  last_error = "";
  acked_at = none;
  handshake_secret = "new";
  revert_handshake_secret = "old";
  created_at = 100;
  updated_at = 100;
}

-- User 7 subscribes twice and leaves once, twice.
abbrev tabs : List Op
tabs =
    subscribes 7
    ∷ subscribes 7
    ∷ broadcasts event
    ∷ unsubscribes 1
    ∷ unsubscribes 1
    ∷ broadcasts event
    ∷ []

tabs_left : run tabs new ≡ record {
  subs = (2, event ∷ event ∷ []) ∷ [];
  sub_owners = (2, 7) ∷ [];
  sub_counts = (7, 1) ∷ [];
  next_sub_id = 2;
}
unfolding run step subscribe admit unsubscribe discount broadcast offer_all offer get insert delete
tabs_left = refl

run-IsSound_example : IsSound (run tabs new)
run-IsSound_example = run-IsSound tabs new new-IsSound (omega arith)

subscribe-refused_example :
    (((subscribe 7 new).1 ≡ subscribed (next_id new)) × (count_of 7 new.sub_owners < per_user))
    ⊎ (((subscribe 7 new).0 ≡ new)
        × ((global ≤ length new.subs) ⊎ (per_user ≤ count_of 7 new.sub_owners)))
subscribe-refused_example = subscribe-refused 7 new new-IsSound
