-- ===== src/Transfer/Broker/Counts.antt =====
-- The counts agree with the subscriptions, and the limits hold.
use sakura_monitoring.Base.{
  ℕ, suc, ◌+◌, ◌^◌, ◌≤◌, ◌<◌, ◌≡◌, refl, none, List, [], ◌∷◌, leb, ==_iff, nat_eq, length, arith,
  Option-cases, Bool-cases, inl, inr, All, ◌⊎◌,
}
use sakura_monitoring.Base.Map.{get, get-insert, get-delete, IsMap, insert-IsMap, delete-IsMap}
use sakura_monitoring.Transfer.Types.{ServerTransfer}
use sakura_monitoring.Transfer.Broker.{
  Broker, new, per_user, global, capacity, or_zero, next_id, admit, subscribe, unsubscribe,
  broadcast, subscribed, Op, subscribes, unsubscribes, broadcasts, step, run, count_of,
}
use sakura_monitoring.Transfer.Broker.Counting.{
  count_of-insert, delete_absent, count_of-delete, length-insert, length-delete, insert-All,
  delete-All, offer_all-All, offer_all-length, discount-get,
}

-- The counts are those of the subscriptions, no user and no channel has too many, and the next id is
-- free.
pub record IsSound (b : Broker) : Type 0 where
  pub counted : (u : ℕ) → or_zero (get u b.sub_counts) ≡ count_of u b.sub_owners
  pub per_user : (u : ℕ) → count_of u b.sub_owners ≤ per_user
  pub global : length b.subs ≤ global
  pub buffered : All (λ e. length e.1 ≤ capacity) b.subs
  pub owned : (id : ℕ) → b.next_sub_id < id → get id b.sub_owners ≡ none
  pub distinct : IsMap b.sub_owners

pub new-IsSound : IsSound new
unfolding get count_of
new-IsSound = record {
  counted = λ u. refl;
  per_user = λ u. omega arith;
  global = omega arith;
  buffered = tt;
  owned = λ id h. refl;
  distinct = tt;
}

next_id_fits : (b : Broker) → b.next_sub_id + 1 < 2 ^ 64 → next_id b ≡ b.next_sub_id + 1
next_id_fits b h = omega arith

admit-IsSound :
    (user : ℕ) (b : Broker)
    → IsSound b
    → b.next_sub_id + 1 < 2 ^ 64
    → length b.subs < global
    → or_zero (get user b.sub_counts) < per_user
    → IsSound (admit user b)
unfolding admit
admit-IsSound user b h fits room more =
    let id = next_id b in
    let free : get id b.sub_owners ≡ none = h.owned id (omega (arith, next_id_fits b)) in
    record {
      counted = λ u. ground (
        arith,
        count_of-insert u id user b.sub_owners,
        h.counted u,
        get-insert user u (or_zero (get user b.sub_counts) + 1) b.sub_counts,
        ==_iff user u,
      );
      per_user = λ u. ground (
        arith,
        count_of-insert u id user b.sub_owners,
        h.counted user,
        h.per_user u,
        ==_iff user u,
      );
      global = ground (arith, length-insert id [] b.subs);
      buffered = insert-All id [] b.subs (omega arith) h.buffered;
      owned = λ j g.
          ground (arith, get-insert id j user b.sub_owners, h.owned j, next_id_fits b, ==_iff id j);
      distinct = insert-IsMap id user b.sub_owners h.distinct;
    }

unsubscribe-IsSound : (id : ℕ) (b : Broker) → IsSound b → IsSound (unsubscribe id b)
unfolding unsubscribe
unsubscribe-IsSound id b h = elim (Option-cases (get id b.sub_owners)) [
  | inl e ↦
      simp (unsubscribe, e, delete_absent id b.sub_owners e)
        (record {
          counted = h.counted;
          per_user = h.per_user;
          global = omega (arith, length-delete id b.subs, h.global);
          buffered = delete-All id b.subs h.buffered;
          owned = h.owned;
          distinct = h.distinct;
        })
  | inr (owner, e) ↦
      simp (unsubscribe, e)
        (record {
          counted = λ u. ground (
            arith,
            discount-get owner u b.sub_counts,
            h.counted u,
            count_of-delete u id owner b.sub_owners h.distinct e,
          );
          per_user = λ u.
              ground (arith, h.per_user u, count_of-delete u id owner b.sub_owners h.distinct e);
          global = omega (arith, length-delete id b.subs, h.global);
          buffered = delete-All id b.subs h.buffered;
          owned = λ j g. ground (arith, get-delete id j b.sub_owners, h.owned j);
          distinct = delete-IsMap id b.sub_owners h.distinct;
        })
]

broadcast-IsSound : (event : ServerTransfer) (b : Broker) → IsSound b → IsSound (broadcast event b)
unfolding broadcast
broadcast-IsSound event b h = record {
  counted = h.counted;
  per_user = h.per_user;
  global = omega (arith, offer_all-length event b.subs, h.global);
  buffered = offer_all-All event b.subs h.buffered;
  owned = h.owned;
  distinct = h.distinct;
}

admit_id :
    (user : ℕ) (b : Broker)
    → b.next_sub_id + 1 < 2 ^ 64
    → (admit user b).next_sub_id ≤ b.next_sub_id + 1
unfolding admit
admit_id user b h = omega (arith, next_id_fits b h)

subscribe-IsSound :
    (user : ℕ) (b : Broker)
    → IsSound b
    → b.next_sub_id + 1 < 2 ^ 64
    → IsSound (subscribe user b).0 × ((subscribe user b).0.next_sub_id ≤ b.next_sub_id + 1)
unfolding subscribe
subscribe-IsSound user b h fits = elim (Bool-cases (leb global (length b.subs))) [
  | inl e ↦ simp (subscribe, e) (h, omega arith)
  | inr e ↦ elim (Bool-cases (leb per_user (or_zero (get user b.sub_counts)))) [
    | inl f ↦ simp (subscribe, e, f) (h, omega arith)
    | inr f ↦
        simp (subscribe, e, f)
          (admit-IsSound user b h fits (ground arith) (ground arith), admit_id user b fits)
  ]
]

unsubscribed_fits :
    (id : ℕ) (b : Broker) (n : ℕ)
    → b.next_sub_id + suc n < 2 ^ 64
    → (unsubscribe id b).next_sub_id + n < 2 ^ 64
unfolding unsubscribe
unsubscribed_fits id b n h = omega arith

broadcast_fits :
    (event : ServerTransfer) (b : Broker) (n : ℕ)
    → b.next_sub_id + suc n < 2 ^ 64
    → (broadcast event b).next_sub_id + n < 2 ^ 64
unfolding broadcast
broadcast_fits event b n h = omega arith

-- A run keeps the counts of the subscriptions exact, whatever the callers do and however often they
-- unsubscribe: at most 8 subscriptions for each user, at most 1024 together, and at most 16 events
-- waiting for each, as long as the ids do not wrap.
pub run-IsSound :
    (ops : List Op) (b : Broker)
    → IsSound b
    → b.next_sub_id + length ops < 2 ^ 64
    → IsSound (run ops b)
unfolding run step
run-IsSound [] b h fits = h
run-IsSound (subscribes user ∷ ops) b h fits =
    let s = subscribe-IsSound user b h (omega arith) in
    run-IsSound ops (subscribe user b).0 s.0 (omega (arith, s.1))
run-IsSound (unsubscribes id ∷ ops) b h fits =
    run-IsSound ops (unsubscribe id b) (unsubscribe-IsSound id b h)
      (unsubscribed_fits id b (length ops) fits)
run-IsSound (broadcasts event ∷ ops) b h fits =
    run-IsSound ops (broadcast event b) (broadcast-IsSound event b h)
      (broadcast_fits event b (length ops) fits)

-- A subscription is refused only where one of the two limits is reached, and a refusal changes
-- nothing.
pub subscribe-refused :
    (user : ℕ) (b : Broker)
    → IsSound b
    → (((subscribe user b).1 ≡ subscribed (next_id b)) × (count_of user b.sub_owners < per_user))
      ⊎ (((subscribe user b).0 ≡ b)
          × ((global ≤ length b.subs) ⊎ (per_user ≤ count_of user b.sub_owners)))
unfolding subscribe
subscribe-refused user b h = elim (Bool-cases (leb global (length b.subs))) [
  | inl e ↦ simp (subscribe, e) (inr (refl, inl (ground arith)))
  | inr e ↦ elim (Bool-cases (leb per_user (or_zero (get user b.sub_counts)))) [
    | inl f ↦ simp (subscribe, e, f) (inr (refl, inr (ground (arith, h.counted user))))
    | inr f ↦ simp (subscribe, e, f) (inl (refl, ground (arith, h.counted user)))
  ]
]
