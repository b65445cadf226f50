-- ===== src/Alert/Timed.antt =====
-- `CheckTimed` of upstream/nezha/model/alertrule.go: a decision over the wall-clock time that the samples
-- cover. Times are nanoseconds. `seventy` is the integer part of `float64(window)*0.70`: the numbers that
-- are compared with it are integers with exact floats.
use sakura_monitoring.Base.{
  ℕ, ◌+◌, ◌-◌, ◌*◌, ◌/◌, ◌%◌, ◌^◌, max, min, Bool, true, false, ◌||◌, ◌&&◌, Option, none, some,
  List, [], ◌∷◌, ltb, leb, ◌==◌, if◌then◌else◌, get_elem?, get_last?,
}
use sakura_monitoring.Alert.Check.{
  Rule, is_supported_type, is_transfer_duration_rule, is_offline_rule,
}

-- `AlertSampleInterval` and `AlertSampleMaxAge`
abbrev pub interval : ℕ
interval = 3_000_000_000

abbrev pub max_age : ℕ
max_age = 6_000_000_000

pub record TimedAlertPoint : Type 0 where
  pub at : ℕ
  pub values : List Bool

-- `known` and `passed`
pub data Decision : Type 0 where
  unknown passing failing : Decision

abbrev pub decided : Bool → Decision
decided true = passing
decided false = failing

-- The end of a point's segment: when the point is too old, the end of the window, and the next point
-- or, for the last one, the end of its tick.
unfoldable pub segment_end : (end at : ℕ) → List TimedAlertPoint → ℕ
segment_end end at [] = min (min (at + max_age) end) (at + interval)
segment_end end at (next ∷ points) = min (min (at + max_age) end) next.at

-- The span of a segment; the window starts at `start`.
unfoldable pub span : (start end : ℕ) → TimedAlertPoint → List TimedAlertPoint → ℕ
unfolding segment_end
span start end point rest = segment_end end point.at rest - max point.at start

abbrev pub tally : ℕ → Option Bool → Option (ℕ × ℕ) → Option (ℕ × ℕ)
tally s none rest = none
tally s (some value) none = none
tally s (some value) (some (covered, failed)) =
    some (s + covered, (if value then failed else s + failed))

-- The loop: the time covered and the time failed, none where a point lacks the condition.
unfoldable pub measure : (index start end : ℕ) → List TimedAlertPoint → Option (ℕ × ℕ)
unfolding span
measure index start end [] = some (0, 0)
measure index start end (point ∷ points) =
    tally (span start end point points) (get_elem? point.values index)
      (measure index start end points)

abbrev pub decide_offline : (window covered failed : ℕ) → Decision
decide_offline window covered failed =
    if leb interval (covered - failed)
    then passing
    else if leb (window - interval) failed && leb (window - interval) covered
    then failing
    else unknown

-- `time.Duration(rule.Duration) * AlertSampleInterval`: none where it is not positive.
unfoldable pub window_of : Rule → Option ℕ
window_of rule =
    let w = (rule.duration * interval) % 2 ^ 64 in if w == 0 || leb (2 ^ 63) w then none else some w

-- A transfer cycle: the last point, if it is recent and has the condition.
abbrev pub check_last : ℕ → ℕ → Option TimedAlertPoint → Decision
check_last index now none = unknown
check_last index now (some point) = elim (get_elem? point.values index) [
  | none ↦ unknown
  | some value ↦ if ltb (point.at + max_age) now then unknown else decided value
]

abbrev pub both : Decision → Decision → Decision
both unknown rest = unknown
both passing unknown = unknown
both passing passing = passing
both passing failing = passing
both failing rest = rest

module _ (seventy : ℕ → ℕ) where
  abbrev pub decide_regular : (window covered failed : ℕ) → Decision
  decide_regular window covered failed =
      if ltb (seventy window) failed
      then failing
      else if leb (failed + window - covered) (seventy window)
      then passing
      else unknown

  abbrev pub decide : Rule → ℕ → Option (ℕ × ℕ) → Decision
  decide rule window none = unknown
  decide rule window (some (covered, failed)) =
      if ltb covered (window - window / 10)
      then unknown
      else if is_offline_rule rule
      then decide_offline window covered failed
      else decide_regular window covered failed

  -- The part of `checkTimed` for a window that is positive; `start` is `end - window`.
  unfoldable pub check_window : Rule → ℕ → ℕ → ℕ → TimedAlertPoint → List TimedAlertPoint → Decision
  unfolding measure is_offline_rule
  check_window rule index now window first points =
      let end = now + interval in
      if ltb end (first.at + window)
      then unknown
      else decide rule window (measure index (end - window) end (first ∷ points))

  -- `Rule.checkTimed`
  unfoldable pub check_timed : Rule → ℕ → ℕ → List TimedAlertPoint → Decision
  unfolding check_window window_of is_transfer_duration_rule
  check_timed rule index now [] = unknown
  check_timed rule index now (first ∷ points) =
      if is_transfer_duration_rule rule
      then check_last index now (get_last? (first ∷ points))
      else elim (window_of rule) [
        | none ↦ unknown
        | some window ↦ check_window rule index now window first points
      ]

  abbrev pub check_supported : ℕ → ℕ → Option Rule → List TimedAlertPoint → Decision
  check_supported index now none points = unknown
  check_supported index now (some rule) points =
      if is_supported_type rule then check_timed rule index now points else unknown

  -- The loop of `AlertRule.CheckTimed`, which an unknown condition ends.
  unfoldable pub check_all : ℕ → ℕ → List (Option Rule) → List TimedAlertPoint → Decision
  unfolding check_timed is_supported_type
  check_all index now [] points = failing
  check_all index now (rule ∷ rules) points =
      both (check_supported index now rule points) (check_all (index + 1) now rules points)

  -- `AlertRule.CheckTimed`
  unfoldable pub check_timed_all : ℕ → List (Option Rule) → List TimedAlertPoint → Decision
  unfolding check_all
  check_timed_all now [] points = unknown
  check_timed_all now (rule ∷ rules) points = check_all 0 now (rule ∷ rules) points
