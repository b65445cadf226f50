-- ===== src/Alert/Instants.antt =====
-- What the samples say of a condition at each instant, and how many instants of a window are of a kind:
-- the description that `CheckTimed` of upstream/nezha/model/alertrule.go is compared with.
use sakura_monitoring.Base.{
  ℕ, zero, suc, ◌+◌, ◌-◌, ◌≤◌, ◌<◌, ◌≡◌, refl, min, max, Bool, true, false, not, ◌&&◌, Option, none,
  some, List, [], ◌∷◌, ltb, leb, if◌then◌else◌, get_elem?, arith,
}
use sakura_monitoring.Alert.Timed.{interval, max_age, TimedAlertPoint}

-- Whether the condition passed at an instant: what the latest point up to then says, for as long as it
-- counts, which is one tick for the last point and twice that for the others.
unfoldable pub state_at : (index t : ℕ) → List TimedAlertPoint → Option Bool
state_at index t [] = none
state_at index t (p ∷ []) =
    if leb p.at t && ltb t (p.at + interval) then get_elem? p.values index else none
state_at index t (p ∷ q ∷ ps) =
    let rest = state_at index t (q ∷ ps) in
    if leb q.at t
    then rest
    else if leb p.at t && ltb t (p.at + max_age)
    then get_elem? p.values index
    else none

abbrev pub is_known : Option Bool → Bool
is_known none = false
is_known (some v) = true

abbrev pub is_failure : Option Bool → Bool
is_failure none = false
is_failure (some v) = not v

abbrev pub one : Bool → ℕ
one false = 0
one true = 1

-- How many of the `n` instants from `start` on pass a test.
unfoldable pub count : (ℕ → Bool) → (start n : ℕ) → ℕ
count test start zero = 0
count test start (suc n) = one (test (start + n)) + count test start n

count-zero : (test : ℕ → Bool) (start : ℕ) → count test start zero ≡ 0
unfolding count
count-zero test start = refl

count-suc :
    (test : ℕ → Bool) (start n : ℕ)
    → count test start (suc n) ≡ one (test (start + n)) + count test start n
unfolding count
count-suc test start n = refl

pub count-never :
    (test : ℕ → Bool) (start n : ℕ) → ((t : ℕ) → test t ≡ false) → count test start n ≡ 0
count-never test start zero h = count-zero test start
count-never test start (suc n) h =
    let last : one (test (start + n)) ≡ 0 = rw (h (start + n)) refl in
    omega (arith, count-suc test start n, last, count-never test start n h)

pub count-split :
    (p q r : ℕ → Bool) (start n : ℕ)
    → ((t : ℕ) → one (p t) ≡ one (q t) + one (r t))
    → count p start n ≡ count q start n + count r start n
count-split p q r start zero h =
    omega (arith, count-zero p start, count-zero q start, count-zero r start)
count-split p q r start (suc n) h = omega (
  arith,
  h (start + n),
  count-split p q r start n h,
  count-suc p start n,
  count-suc q start n,
  count-suc r start n,
)

-- Where all instants pass, their number is that of the instants.
pub count-all :
    (test : ℕ → Bool) (start n : ℕ)
    → ((t : ℕ) → start ≤ t → t < start + n → test t ≡ true)
    → count test start n ≡ n
count-all test start zero h = count-zero test start
count-all test start (suc n) h =
    let later = count-all test start n (λ t a b. h t a (omega arith)) in
    let last : one (test (start + n)) ≡ 1 = rw (h (start + n) (omega arith) (omega arith)) refl in
    omega (arith, later, last, count-suc test start n)

abbrev pub is_between : (a b t : ℕ) → Bool
is_between a b t = leb a t && ltb t b

-- The instants of an interval, of those from `start` on.
pub count-between :
    (a b start n : ℕ) → count (is_between a b) start n ≡ min b (start + n) - max a start
count-between a b start zero = omega (arith, count-zero (is_between a b) start)
count-between a b start (suc n) =
    ground (arith, count-suc (is_between a b) start n, count-between a b start n)

pub count-same :
    (p q : ℕ → Bool) (start n : ℕ) → ((t : ℕ) → p t ≡ q t) → count p start n ≡ count q start n
count-same p q start zero h = omega (arith, count-zero p start, count-zero q start)
count-same p q start (suc n) h =
    let last : one (p (start + n)) ≡ one (q (start + n)) = rw (h (start + n)) refl in
    omega (arith, last, count-suc p start n, count-suc q start n, count-same p q start n h)

pub count-own :
    (b : Bool) (a m start n : ℕ)
    → count (λ t. b && is_between a m t) start n
      ≡ (if b then min m (start + n) - max a start else 0)
count-own true a m start n = count-between a m start n
count-own false a m start n = count-never (λ t. false) start n (λ t. refl)

-- The points stand in the order of their times.
abbrev pub IsChronological : List TimedAlertPoint → Type 0
IsChronological [] = Unit
IsChronological (p ∷ []) = Unit
IsChronological (p ∷ q ∷ ps) = (p.at ≤ q.at) × IsChronological (q ∷ ps)
