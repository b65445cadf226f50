-- ===== src/Transfer/Broker/Counting.antt =====
-- The counts and the channels under each change of the maps.
use sakura_monitoring.Base.{
  ℕ, suc, ◌+◌, ◌-◌, ◌≤◌, ◌≡◌, refl, ap, none, some, List, [], ◌∷◌, ◌==◌, ==_iff, if◌then◌else◌,
  nat_eq, length, length-append, arith, Bool-cases, inl, inr, All,
}
use sakura_monitoring.Base.Map.{Map, get, insert, delete, get-insert, get-delete, IsMap}
use sakura_monitoring.Transfer.Types.{ServerTransfer}
use sakura_monitoring.Transfer.Broker.{capacity, or_zero, discount, offer, offer_all, count_of}

pub count_of-insert :
    (u id owner : ℕ) (owners : Map ℕ ℕ)
    → get id owners ≡ none
    → count_of u (insert id owner owners)
      ≡ (if owner == u then count_of u owners + 1 else count_of u owners)
unfolding count_of insert get
count_of-insert u id owner [] g = refl
count_of-insert u id owner ((j, o) ∷ owners) g = ground (arith, count_of-insert u id owner owners)

pub delete_absent : (id : ℕ) (owners : Map ℕ ℕ) → get id owners ≡ none → delete id owners ≡ owners
unfolding delete get
delete_absent id [] g = refl
delete_absent id ((j, o) ∷ owners) g = ground (arith, delete_absent id owners)

pub count_of-delete :
    (u id owner : ℕ) (owners : Map ℕ ℕ)
    → IsMap owners
    → get id owners ≡ some owner
    → count_of u owners
      ≡ (if owner == u then count_of u (delete id owners) + 1 else count_of u (delete id owners))
unfolding count_of delete get
count_of-delete u id owner [] d g = ground arith
count_of-delete u id owner ((j, o) ∷ owners) d g =
    ground (arith, count_of-delete u id owner owners d.1, ==_iff j id, delete_absent id owners)

module _ {A : Type 0} where
  pub length-insert : (id : ℕ) (x : A) (m : Map ℕ A) → length (insert id x m) ≤ length m + 1
  unfolding insert
  length-insert id x [] = omega arith
  length-insert id x ((j, y) ∷ m) = ground (arith, length-insert id x m)

  pub length-delete : (id : ℕ) (m : Map ℕ A) → length (delete id m) ≤ length m
  unfolding delete
  length-delete id [] = omega arith
  length-delete id ((j, y) ∷ m) = ground (arith, length-delete id m)

pub insert-All :
    (id : ℕ) (ch : List ServerTransfer) (m : Map ℕ (List ServerTransfer))
    → length ch ≤ capacity
    → All (λ e. length e.1 ≤ capacity) m
    → All (λ e. length e.1 ≤ capacity) (insert id ch m)
unfolding insert
insert-All id ch [] h a = (h, tt)
insert-All id ch ((j, x) ∷ m) h a = elim (Bool-cases (j == id)) [
  | inl e ↦ rw e (h, a.1)
  | inr e ↦ rw e (a.0, insert-All id ch m h a.1)
]

pub delete-All :
    (id : ℕ) (m : Map ℕ (List ServerTransfer))
    → All (λ e. length e.1 ≤ capacity) m
    → All (λ e. length e.1 ≤ capacity) (delete id m)
unfolding delete
delete-All id [] a = tt
delete-All id ((j, x) ∷ m) a = elim (Bool-cases (j == id)) [
  | inl e ↦ rw e (delete-All id m a.1)
  | inr e ↦ rw e (a.0, delete-All id m a.1)
]

offer-le :
    (event : ServerTransfer) (ch : List ServerTransfer)
    → length ch ≤ capacity
    → length (offer event ch) ≤ capacity
unfolding offer
offer-le event ch h = ground (arith, length-append ch (event ∷ []))

pub offer_all-All :
    (event : ServerTransfer) (m : Map ℕ (List ServerTransfer))
    → All (λ e. length e.1 ≤ capacity) m
    → All (λ e. length e.1 ≤ capacity) (offer_all event m)
unfolding offer_all
offer_all-All event [] a = tt
offer_all-All event ((id, ch) ∷ m) a = (offer-le event ch a.0, offer_all-All event m a.1)

pub offer_all-length :
    (event : ServerTransfer) (m : Map ℕ (List ServerTransfer))
    → length (offer_all event m) ≡ length m
unfolding offer_all
offer_all-length event [] = refl
offer_all-length event ((id, ch) ∷ m) = ap suc (offer_all-length event m)

pub discount-get :
    (owner u : ℕ) (counts : Map ℕ ℕ)
    → or_zero (get u (discount owner counts))
      ≡ (if owner == u then or_zero (get u counts) - 1 else or_zero (get u counts))
unfolding discount
discount-get owner u counts = ground (
  arith,
  get-delete owner u counts,
  ==_iff owner u,
  get-insert owner u (or_zero (get owner counts) - 1) counts,
)
