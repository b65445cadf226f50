-- ===== src/Alert/Measuring.antt =====
-- The times that `CheckTimed` measures are numbers of instants.
use sakura_monitoring.Base.{
  ℕ, ◌+◌, ◌-◌, ◌<◌, ◌≡◌, refl, min, max, ap, ◌∙◌, Bool, true, false, not, ◌&&◌, Option, none, some,
  List, [], ◌∷◌, leb, if◌then◌else◌, get_elem?, arith, Bool-cases, inl, inr, All,
}
use sakura_monitoring.Alert.Timed.{
  interval, max_age, TimedAlertPoint, segment_end, span, tally, measure,
}
use sakura_monitoring.Alert.Instants.{
  state_at, is_known, is_failure, one, count, count-never, count-split, count-same, count-own,
  is_between, IsChronological,
}

state_at-before :
    (index t : ℕ) (p : TimedAlertPoint) (ps : List TimedAlertPoint)
    → IsChronological (p ∷ ps)
    → t < p.at
    → state_at index t (p ∷ ps) ≡ none
unfolding state_at
state_at-before index t p [] h l = let early : leb p.at t ≡ false = ground arith in rw early refl
state_at-before index t p (q ∷ ps) h l =
    let early : leb p.at t ≡ false = ground arith in
    let earlier : leb q.at t ≡ false = ground (arith, h.0) in rw (earlier, early) refl

state_at-later :
    (index t : ℕ) (p q : TimedAlertPoint) (ps : List TimedAlertPoint)
    → leb q.at t ≡ true
    → state_at index t (p ∷ q ∷ ps) ≡ state_at index t (q ∷ ps)
unfolding state_at
state_at-later index t p q ps l = rw l refl

state_at-here :
    (index t : ℕ) (p q : TimedAlertPoint) (ps : List TimedAlertPoint)
    → leb q.at t ≡ false
    → state_at index t (p ∷ q ∷ ps)
      ≡ (if is_between p.at (p.at + max_age) t then get_elem? p.values index else none)
unfolding state_at
state_at-here index t p q ps l = rw l refl

and_false : (b : Bool) → b && false ≡ false
and_false true = refl
and_false false = refl

and_true : (b : Bool) → b && true ≡ b
and_true true = refl
and_true false = refl

add_zero : (n : ℕ) → n + 0 ≡ n
add_zero n = omega arith

span-last :
    (start end : ℕ) (p : TimedAlertPoint)
    → span start end p [] ≡ min (p.at + interval) end - max p.at start
unfolding span segment_end
span-last start end p = omega arith

span-next :
    (start end : ℕ) (p q : TimedAlertPoint) (ps : List TimedAlertPoint)
    → span start end p (q ∷ ps) ≡ min (min (p.at + max_age) q.at) end - max p.at start
unfolding span segment_end
span-next start end p q ps = omega arith

-- A test that an unknown state does not pass.
module _ (test : Option Bool → Bool) (never : test none ≡ false) where
  -- The state at an instant is that of the first point or that of the others.
  state_at-first :
      (index t : ℕ) (p q : TimedAlertPoint) (ps : List TimedAlertPoint) (v : Bool)
      → IsChronological (p ∷ q ∷ ps)
      → get_elem? p.values index ≡ some v
      → one (test (state_at index t (p ∷ q ∷ ps)))
        ≡ one (test (some v) && is_between p.at (min (p.at + max_age) q.at) t)
          + one (test (state_at index t (q ∷ ps)))
  state_at-first index t p q ps v h e = elim (Bool-cases (leb q.at t)) [
    | inl l ↦
        let out : is_between p.at (min (p.at + max_age) q.at) t ≡ false = ground arith in
        rw (state_at-later index t p q ps l, out, and_false (test (some v))) (omega arith)
    | inr l ↦
        let unknown = state_at-before index t q ps h.1 (ground arith) in
        elim (Bool-cases (is_between p.at (p.at + max_age) t)) [
          | inl b ↦
              let into : is_between p.at (min (p.at + max_age) q.at) t ≡ true = ground arith in
              rw
                (
                  state_at-here index t p q ps l,
                  b,
                  e,
                  unknown,
                  into,
                  never,
                  and_true (test (some v)),
                  add_zero,
                )
                refl
          | inr b ↦
              let out : is_between p.at (min (p.at + max_age) q.at) t ≡ false = ground arith in
              rw (state_at-here index t p q ps l, b, unknown, out, never, and_false (test (some v)))
                (omega arith)
        ]
  ]

  state_at-last :
      (index t : ℕ) (p : TimedAlertPoint) (v : Bool)
      → get_elem? p.values index ≡ some v
      → test (state_at index t (p ∷ [])) ≡ (test (some v) && is_between p.at (p.at + interval) t)
  unfolding state_at
  state_at-last index t p v e = elim (Bool-cases (is_between p.at (p.at + interval) t)) [
    | inl b ↦ rw (b, e, and_true (test (some v))) refl
    | inr b ↦ rw (b, never, and_false (test (some v))) refl
  ]

  -- The instants that pass, from one point on: those of its own segment and those of the others.
  count-first :
      (index start n : ℕ) (p q : TimedAlertPoint) (ps : List TimedAlertPoint) (v : Bool)
      → IsChronological (p ∷ q ∷ ps)
      → get_elem? p.values index ≡ some v
      → count (λ t. test (state_at index t (p ∷ q ∷ ps))) start n
        ≡ (if test (some v) then span start (start + n) p (q ∷ ps) else 0)
          + count (λ t. test (state_at index t (q ∷ ps))) start n
  count-first index start n p q ps v h e =
      count-split (λ t. test (state_at index t (p ∷ q ∷ ps)))
        (λ t. test (some v) && is_between p.at (min (p.at + max_age) q.at) t)
        (λ t. test (state_at index t (q ∷ ps))) start n (λ t. state_at-first index t p q ps v h e)
      ∙ ap (λ k. k + count (λ t. test (state_at index t (q ∷ ps))) start n)
          (rw (span-next start (start + n) p q ps)
            (count-own (test (some v)) p.at (min (p.at + max_age) q.at) start n))

  count-last :
      (index start n : ℕ) (p : TimedAlertPoint) (v : Bool)
      → get_elem? p.values index ≡ some v
      → count (λ t. test (state_at index t (p ∷ []))) start n
        ≡ (if test (some v) then span start (start + n) p [] else 0)
  count-last index start n p v e =
      count-same (λ t. test (state_at index t (p ∷ [])))
        (λ t. test (some v) && is_between p.at (p.at + interval) t) start n
        (λ t. state_at-last index t p v e)
      ∙ rw (span-last start (start + n) p)
          (count-own (test (some v)) p.at (p.at + interval) start n)

-- Every point says whether the condition of the index passed.
abbrev pub HasCondition : ℕ → TimedAlertPoint → Type 0
HasCondition index p = (v : Bool) × (get_elem? p.values index ≡ some v)

measure-cons :
    (index start end : ℕ) (p : TimedAlertPoint) (ps : List TimedAlertPoint)
    → measure index start end (p ∷ ps)
      ≡ tally (span start end p ps) (get_elem? p.values index) (measure index start end ps)
unfolding measure
measure-cons index start end p ps = refl

measure-nil : (index start end : ℕ) → measure index start end [] ≡ some (0, 0)
unfolding measure
measure-nil index start end = refl

unknown_where_empty :
    (index t : ℕ)
    → (is_known (state_at index t []) ≡ false) × (is_failure (state_at index t []) ≡ false)
unfolding state_at
unknown_where_empty index t = (refl, refl)

tally-some :
    (s : ℕ) (v : Bool) (m : ℕ × ℕ)
    → tally s (some v) (some m) ≡ some (s + m.0, (if not v then s else 0) + m.1)
tally-some s true (m, n) = ap (λ k. some (s + m, k)) (omega arith)
tally-some s false (m, n) = refl

-- In a chronological history whose points all have the condition, the time that is covered is the number
-- of the instants of the window at which the state of the condition is known, and the time that failed
-- is the number of those at which it is a failure. The window is any `n` instants from `start` on.
pub measure-counted :
    (index start n : ℕ) (points : List TimedAlertPoint)
    → IsChronological points
    → All (HasCondition index) points
    → measure index start (start + n) points
      ≡ some (
        count (λ t. is_known (state_at index t points)) start n,
        count (λ t. is_failure (state_at index t points)) start n,
      )
measure-counted index start n [] h a =
    rw
      (
        measure-nil index start (start + n),
        count-never (λ t. is_known (state_at index t [])) start n
            (λ t. (unknown_where_empty index t).0),
        count-never (λ t. is_failure (state_at index t [])) start n
            (λ t. (unknown_where_empty index t).1),
      )
      refl
measure-counted index start n (p ∷ []) h ((v, e), a) =
    rw
      (
        count-last is_known refl index start n p v e,
        count-last is_failure refl index start n p v e,
        measure-cons index start (start + n) p [],
        measure-nil index start (start + n),
        e,
      )
      (tally-some (span start (start + n) p []) v (0, 0)
        ∙ rw
            (
              add_zero (span start (start + n) p []),
              add_zero (if not v then span start (start + n) p [] else 0),
            )
            refl)
measure-counted index start n (p ∷ q ∷ ps) h ((v, e), a) =
    let later = measure-counted index start n (q ∷ ps) h.1 a in
    rw
      (
        count-first is_known refl index start n p q ps v h e,
        count-first is_failure refl index start n p q ps v h e,
        measure-cons index start (start + n) p (q ∷ ps),
        e,
        later,
      )
      (tally-some (span start (start + n) p (q ∷ ps)) v _)
