-- ===== src/Alert/Tests.antt =====
-- A compound rule over a few samples, and the theorems at it.
use sakura_monitoring.Base.{
  ℕ, ◌+◌, ◌*◌, ◌/◌, ◌≤◌, ◌<◌, ◌≡◌, refl, not, ltb, All, Bool, true, false, Option, none, some, List,
  [], ◌∷◌, arith, drop,
}
use sakura_monitoring.Alert.Check.{
  Rule, is_supported_type, is_transfer_duration_rule, is_offline_rule, duration_int, check_duration,
  check_offline, check_regular, check_rule, check_rules, check, until_passed, backward,
  count_failed, need, retention_window,
}
use sakura_monitoring.Alert.Timed.{
  interval, TimedAlertPoint, decided, failing, segment_end, span, measure, window_of, check_window,
  check_timed, check_all, check_timed_all,
}
use sakura_monitoring.Alert.Instants.{state_at, is_known, IsChronological}
use sakura_monitoring.Alert.Measuring.{HasCondition}
use sakura_monitoring.Alert.Coverage.{
  window_start, failures, check_timed-covered, check_timed_all-raised,
}
use sakura_monitoring.Alert.Reference.{judged, is_quiet, check-judged}
use sakura_monitoring.Alert.Retention.{check-drop}

-- Processor load over four ticks, and the machine unreachable over three.
abbrev rules : List (Option Rule)
rules =
    some (record { type = "cpu"; duration = 4 })
    ∷ none
    ∷ some (record { type = "offline"; duration = 3 })
    ∷ []

abbrev fine : List Bool
fine = true ∷ true ∷ true ∷ []

abbrev bad : List Bool
bad = false ∷ true ∷ false ∷ []

abbrev samples : List (List Bool)
samples = fine ∷ fine ∷ bad ∷ bad ∷ bad ∷ []

raised : check rules samples ≡ (4, false)
unfolding check check_rules check_rule is_supported_type is_transfer_duration_rule is_offline_rule
    duration_int check_duration check_offline check_regular until_passed backward count_failed
raised = refl

check-judged_example : (check rules samples).1 ≡ is_quiet (judged 0 rules samples)
check-judged_example = check-judged rules samples

check-drop_example : (check rules (drop 1 samples)).1 ≡ (check rules samples).1
unfolding retention_window need is_supported_type is_transfer_duration_rule duration_int
check-drop_example = check-drop 1 rules samples (omega arith)

abbrev threshold : ℕ → ℕ
threshold w = w * 7 / 10

abbrev second : ℕ
second = 1_000_000_000

abbrev load : Rule
load = record { type = "cpu"; duration = 3 }

-- Four ticks; the last three fail. The window of three ticks ends with the current one.
abbrev first : TimedAlertPoint
first = record { at = 100 * second; values = true ∷ [] }

abbrev later : List TimedAlertPoint
later =
    record { at = 103 * second; values = false ∷ [] }
    ∷ record { at = 106 * second; values = false ∷ [] }
    ∷ record { at = 109 * second; values = false ∷ [] }
    ∷ []

chronological : IsChronological (first ∷ later)
chronological = (omega arith, (omega arith, (omega arith, tt)))

complete : All (HasCondition 0) (first ∷ later)
complete = ((true, refl), ((false, refl), ((false, refl), ((false, refl), tt))))

reported :
    (t : ℕ)
    → window_start (109 * second) (9 * second) ≤ t
    → t < 109 * second + interval
    → is_known (state_at 0 t (first ∷ later)) ≡ true
unfolding state_at
reported t l u = ground arith

check_timed-covered_example :
    check_timed threshold load 0 (109 * second) (first ∷ later)
    ≡ decided (
        not (ltb (threshold (9 * second)) (failures 0 (109 * second) (9 * second) (first ∷ later))))
unfolding is_transfer_duration_rule is_offline_rule window_of
check_timed-covered_example =
    check_timed-covered threshold load 0 (109 * second) (9 * second) first later refl refl refl
      (omega arith) chronological complete reported

outage : check_timed_all threshold (109 * second) (some load ∷ []) (first ∷ later) ≡ failing
unfolding check_timed_all check_all check_timed check_window measure span segment_end window_of
    is_transfer_duration_rule is_offline_rule is_supported_type
outage = refl

check_timed_all-raised_example :
    (is_supported_type load ≡ true)
    × (threshold (9 * second) < failures 0 (109 * second) (9 * second) (first ∷ later))
unfolding is_transfer_duration_rule is_offline_rule window_of
check_timed_all-raised_example =
    check_timed_all-raised threshold (109 * second) 0 (9 * second) load (some load ∷ [])
      (first ∷ later) refl refl refl refl chronological complete outage
