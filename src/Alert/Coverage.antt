-- ===== src/Alert/Coverage.antt =====
-- When `CheckTimed` raises an alert, in terms of the instants of a condition's window.
use sakura_monitoring.Base.{
  ℕ, zero, suc, ◌+◌, ◌-◌, ◌/◌, ◌≤◌, ◌<◌, ◌≡◌, refl, true, false, not, Option, some, List, [], ◌∷◌,
  ltb, leb, get_elem?, arith, Bool-cases, inl, inr, All, subst, ◌∙◌, ap, sym,
}
use mathlib.Core.Option.{some_inj}
use sakura_monitoring.Alert.Check.{
  Rule, is_supported_type, is_transfer_duration_rule, is_offline_rule,
}
use sakura_monitoring.Alert.Timed.{
  interval, TimedAlertPoint, Decision, unknown, passing, failing, decided, measure, window_of,
  check_window, decide, check_timed, both, check_supported, check_all, check_timed_all,
}
use sakura_monitoring.Alert.Instants.{
  state_at, is_known, is_failure, count, count-all, IsChronological,
}
use sakura_monitoring.Alert.Measuring.{HasCondition, measure-counted}

-- The window of a decision at `now` that is `window` long.
abbrev pub window_start : (now window : ℕ) → ℕ
window_start now window = now + interval - window

-- How many instants of the window the condition fails at.
abbrev pub failures : (index now window : ℕ) → List TimedAlertPoint → ℕ
failures index now window points =
    count (λ t. is_failure (state_at index t points)) (window_start now window) window

measured :
    (index now window : ℕ) (points : List TimedAlertPoint)
    → window ≤ now + interval
    → IsChronological points
    → All (HasCondition index) points
    → measure index (window_start now window) (now + interval) points
      ≡ some (
        count (λ t. is_known (state_at index t points)) (window_start now window) window,
        failures index now window points,
      )
measured index now window points fits h a =
    let end : window_start now window + window ≡ now + interval = omega (arith, fits) in
    subst
      (λ e.
        measure index (window_start now window) e points
        ≡ some (
          count (λ t. is_known (state_at index t points)) (window_start now window) window,
          failures index now window points,
        ))
      end (measure-counted index (window_start now window) window points h a)

add_zero : (n : ℕ) → n + 0 ≡ n
add_zero n = omega arith

module _ (seventy : ℕ → ℕ) where
  -- A condition with a positive window, neither a transfer cycle nor offline, is decided where the points stand in the
  -- order of their times and all have the condition, the first is not after the start of the window, and
  -- the state is known at every instant of the window: it fails just where the number of the instants at
  -- which the state is a failure exceeds the threshold.
  pub check_timed-covered :
      (rule : Rule) (index now window : ℕ) (first : TimedAlertPoint) (points : List TimedAlertPoint)
      → is_transfer_duration_rule rule ≡ false
      → is_offline_rule rule ≡ false
      → window_of rule ≡ some window
      → first.at + window ≤ now + interval
      → IsChronological (first ∷ points)
      → All (HasCondition index) (first ∷ points)
      → ((t : ℕ)
          → window_start now window ≤ t
          → t < now + interval
          → is_known (state_at index t (first ∷ points)) ≡ true)
      → check_timed seventy rule index now (first ∷ points)
        ≡ decided (not (ltb (seventy window) (failures index now window (first ∷ points))))
  unfolding check_timed check_window
  check_timed-covered rule index now window first points cycle offline w began h a known =
      let failed = failures index now window (first ∷ points) in
      let late : ltb (now + interval) (first.at + window) ≡ false = ground arith in
      let enough : ltb window (window - window / 10) ≡ false = ground arith in
      let all =
        count-all (λ t. is_known (state_at index t (first ∷ points))) (window_start now window)
          window (λ t l u. known t l (omega (arith, began, l, u))) in
      let covered : measure index (window_start now window) (now + interval) (first ∷ points)
          ≡ some (window, failed) =
        measured index now window (first ∷ points) (omega (arith, began)) h a
        ∙ ap (λ k. some (k, failed)) all in
      elim (Bool-cases (ltb (seventy window) failed)) [
        | inl e ↦ simp (check_timed, cycle, w, check_window, late, covered, enough, offline, e) refl
        | inr e ↦
            let rest : leb (failed + window - window) (seventy window) ≡ true = ground arith in
            simp (check_timed, cycle, w, check_window, late, covered, enough, offline, e, rest) refl
      ]

  both-failing : (d e : Decision) → both d e ≡ failing → (d ≡ failing) × (e ≡ failing)
  both-failing unknown e h = ground arith
  both-failing passing unknown h = ground arith
  both-failing passing passing h = ground arith
  both-failing passing failing h = ground arith
  both-failing failing e h = (refl, h)

  -- Each condition of a compound rule that raises an alert fails.
  check_all-each :
      (index now i : ℕ) (r : Option Rule) (rules : List (Option Rule))
      (points : List TimedAlertPoint)
      → check_all seventy index now rules points ≡ failing
      → get_elem? rules i ≡ some r
      → check_supported seventy (index + i) now r points ≡ failing
  unfolding check_all
  check_all-each index now i r [] points h g = ground arith
  check_all-each index now zero r (rule ∷ rules) points h g =
      let b =
        both-failing (check_supported seventy index now rule points)
          (check_all seventy (index + 1) now rules points) h in
      rw (add_zero index)
        (subst (λ x. check_supported seventy index now x points ≡ failing) (some_inj.0 g) b.0)
  check_all-each index now (suc i) r (rule ∷ rules) points h g =
      let b =
        both-failing (check_supported seventy index now rule points)
          (check_all seventy (index + 1) now rules points) h in
      let shifted : index + suc i ≡ index + 1 + i = omega arith in
      rw shifted (check_all-each (index + 1) now i r rules points b.1 g)

  check_supported-raised :
      (index now : ℕ) (rule : Rule) (points : List TimedAlertPoint)
      → check_supported seventy index now (some rule) points ≡ failing
      → (is_supported_type rule ≡ true) × (check_timed seventy rule index now points ≡ failing)
  check_supported-raised index now rule points raised = ground arith

  decide-raised :
      (rule : Rule) (window covered failed : ℕ)
      → is_offline_rule rule ≡ false
      → decide seventy rule window (some (covered, failed)) ≡ failing
      → seventy window < failed
  decide-raised rule window covered failed offline =
      elim (Bool-cases (ltb covered (window - window / 10))) [
        | inl e ↦ simp (e, offline) (λ h. ground arith)
        | inr e ↦ elim (Bool-cases (ltb (seventy window) failed)) [
          | inl l ↦ λ h. ground arith
          | inr l ↦ elim (Bool-cases (leb (failed + window - covered) (seventy window))) [
            | inl q ↦ simp (e, offline, l, q) (λ h. ground arith)
            | inr q ↦ simp (e, offline, l, q) (λ h. ground arith)
          ]
        ]
      ]

  check_timed-raised :
      (rule : Rule) (index now window : ℕ) (points : List TimedAlertPoint)
      → is_transfer_duration_rule rule ≡ false
      → is_offline_rule rule ≡ false
      → window_of rule ≡ some window
      → IsChronological points
      → All (HasCondition index) points
      → check_timed seventy rule index now points ≡ failing
      → seventy window < failures index now window points
  unfolding check_timed check_window
  check_timed-raised rule index now window [] cycle offline w h a raised = ground arith
  check_timed-raised rule index now window (first ∷ points) cycle offline w h a raised =
      let points' = first ∷ points in
      let known =
        count (λ t. is_known (state_at index t points')) (window_start now window) window in
      let failed = failures index now window points' in
      elim (Bool-cases (ltb (now + interval) (first.at + window))) [
        | inl late ↦
            let never : check_timed seventy rule index now points' ≡ unknown =
              simp (check_timed, cycle, w, check_window, late) refl in
            ground arith
        | inr late ↦
            let times = measured index now window points' (ground arith) h a in
            let same : check_timed seventy rule index now points'
                ≡ decide seventy rule window (some (known, failed)) =
              simp (check_timed, cycle, w, check_window, late, times) refl in
            decide-raised rule window known failed offline (sym same ∙ raised)
      ]

  check_all-raised :
      (now : ℕ) (rules : List (Option Rule)) (points : List TimedAlertPoint)
      → check_timed_all seventy now rules points ≡ failing
      → check_all seventy 0 now rules points ≡ failing
  unfolding check_timed_all
  check_all-raised now [] points h = ground arith
  check_all-raised now (rule ∷ rules) points h = h

  -- Where a compound rule raises an alert over points in the order of their times, each of its conditions
  -- with a positive window that is neither a transfer cycle nor offline and that all points have is of a
  -- supported type, and the
  -- number of the instants of its window at which its state is a failure exceeds its threshold, however
  -- little of the window is covered.
  pub check_timed_all-raised :
      (now i window : ℕ) (rule : Rule) (rules : List (Option Rule)) (points : List TimedAlertPoint)
      → get_elem? rules i ≡ some (some rule)
      → is_transfer_duration_rule rule ≡ false
      → is_offline_rule rule ≡ false
      → window_of rule ≡ some window
      → IsChronological points
      → All (HasCondition i) points
      → check_timed_all seventy now rules points ≡ failing
      → (is_supported_type rule ≡ true) × (seventy window < failures i now window points)
  check_timed_all-raised now i window rule rules points g cycle offline w h a raised =
      let from_start : 0 + i ≡ i = omega arith in
      let all : check_all seventy 0 now rules points ≡ failing =
        check_all-raised now rules points raised in
      let each : check_supported seventy i now (some rule) points ≡ failing =
        subst (λ k. check_supported seventy k now (some rule) points ≡ failing) from_start
          (check_all-each 0 now i (some rule) rules points all g) in
      let (supported, fails) = check_supported-raised i now rule points each in
      (supported, check_timed-raised rule i now window points cycle offline w h a fails)
