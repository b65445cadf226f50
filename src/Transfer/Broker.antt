-- ===== src/Transfer/Broker.antt =====
-- The subscribers of transfer events: `Subscribe`, `Unsubscribe` and `broadcast` of
-- upstream/nezha/service/singleton/server_transfer.go, each one step under `subMu`. A channel is the
-- list of what it buffers, oldest first.
pub mod Counting
pub mod Counts
mod Tests
use sakura_monitoring.Base.{
  ℕ, ◌+◌, ◌-◌, ◌%◌, ◌^◌, ◌≡◌, Bool, true, false, Option, none, some, List, [], ◌∷◌, ◌++◌, ltb, leb,
  ◌==◌, if◌then◌else◌, nat_eq, length,
}
use sakura_monitoring.Base.Map.{Map, empty, get, insert, delete}
use sakura_monitoring.Transfer.Types.{ServerTransfer}

-- `maxServerTransferSubscribersPerUser` and `maxServerTransferSubscribersGlobal`
abbrev pub per_user : ℕ
per_user = 8

abbrev pub global : ℕ
global = 1024

-- The capacity of a channel.
abbrev pub capacity : ℕ
capacity = 16

-- The fields of `ServerTransferClass` under `subMu`.
pub record Broker : Type 0 where
  pub subs : Map ℕ (List ServerTransfer)
  pub sub_owners : Map ℕ ℕ
  pub sub_counts : Map ℕ ℕ
  pub next_sub_id : ℕ

abbrev pub new : Broker
new = record { subs = empty; sub_owners = empty; sub_counts = empty; next_sub_id = 0 }

pub data Subscribed : Type 0 where
  subscribed : ℕ → Subscribed
  too_many_global too_many_for_user : Subscribed

-- A Go map of numbers reads 0 where the key is missing.
abbrev pub or_zero : Option ℕ → ℕ
or_zero none = 0
or_zero (some n) = n

abbrev pub next_id : Broker → ℕ
next_id b = (b.next_sub_id + 1) % 2 ^ 64

-- `Subscribe` past its two guards
unfoldable pub admit : ℕ → Broker → Broker
admit user b = record {
  subs = insert (next_id b) [] b.subs;
  sub_owners = insert (next_id b) user b.sub_owners;
  sub_counts = insert user (or_zero (get user b.sub_counts) + 1) b.sub_counts;
  next_sub_id = next_id b;
}

-- `Subscribe`
unfoldable pub subscribe : ℕ → Broker → Broker × Subscribed
unfolding admit
subscribe user b =
    if leb global (length b.subs)
    then (b, too_many_global)
    else if leb per_user (or_zero (get user b.sub_counts))
    then (b, too_many_for_user)
    else (admit user b, subscribed (next_id b))

-- One subscription less for a user.
unfoldable pub discount : ℕ → Map ℕ ℕ → Map ℕ ℕ
discount user counts =
    if leb (or_zero (get user counts)) 1
    then delete user counts
    else insert user (or_zero (get user counts) - 1) counts

abbrev pub discount_owner : Option ℕ → Map ℕ ℕ → Map ℕ ℕ
discount_owner none counts = counts
discount_owner (some user) counts = discount user counts

-- `Unsubscribe`; closing the channel is not modelled.
unfoldable pub unsubscribe : ℕ → Broker → Broker
unfolding discount
unsubscribe id b = record b {
  subs = delete id b.subs;
  sub_owners = delete id b.sub_owners;
  sub_counts = discount_owner (get id b.sub_owners) b.sub_counts;
}

-- The `select` of one channel: an event that does not fit is dropped.
unfoldable pub offer : ServerTransfer → List ServerTransfer → List ServerTransfer
offer event ch = if ltb (length ch) capacity then ch ++ (event ∷ []) else ch

unfoldable pub offer_all :
    ServerTransfer → Map ℕ (List ServerTransfer) → Map ℕ (List ServerTransfer)
unfolding offer
offer_all event [] = []
offer_all event ((id, ch) ∷ subs) = (id, offer event ch) ∷ offer_all event subs

-- `broadcast`
unfoldable pub broadcast : ServerTransfer → Broker → Broker
unfolding offer_all
broadcast event b = record b { subs = offer_all event b.subs }

pub data Op : Type 0 where
  subscribes unsubscribes : ℕ → Op
  broadcasts : ServerTransfer → Op

unfoldable pub step : Op → Broker → Broker
unfolding subscribe unsubscribe broadcast
step (subscribes user) b = (subscribe user b).0
step (unsubscribes id) b = unsubscribe id b
step (broadcasts event) b = broadcast event b

unfoldable pub run : List Op → Broker → Broker
unfolding step
run [] b = b
run (op ∷ ops) b = run ops (step op b)

-- How many subscriptions a user holds.
unfoldable pub count_of : ℕ → Map ℕ ℕ → ℕ
count_of user [] = 0
count_of user ((id, owner) ∷ owners) =
    let rest = count_of user owners in if owner == user then rest + 1 else rest
