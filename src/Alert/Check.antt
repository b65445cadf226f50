-- ===== src/Alert/Check.antt =====
-- `Check`, one condition at a time, and `RetentionWindow`.
use sakura_monitoring.Base.{
  ℕ, ◌+◌, ◌-◌, ◌*◌, max, Bool, true, false, not, Option, none, some, String, List, [], ◌∷◌, ◌++◌,
  ltb, leb, ◌==◌, str_eq, if◌then◌else◌, any, length, get_elem?, get_last?, drop,
}

-- The fields of `Rule` that `Check` reads.
pub record Rule : Type 0 where
  pub type : String
  pub duration : ℕ

-- `MaxAlertRuleDuration`
abbrev pub max_duration : ℕ
max_duration = 86400

abbrev pub supported_types : List String
supported_types =
    "cpu" ∷ "gpu" ∷ "gpu_max" ∷ "memory" ∷ "swap" ∷ "disk" ∷ "net_in_speed" ∷ "net_out_speed"
    ∷ "net_all_speed" ∷ "transfer_in" ∷ "transfer_out" ∷ "transfer_all" ∷ "offline"
    ∷ "transfer_in_cycle" ∷ "transfer_out_cycle" ∷ "transfer_all_cycle" ∷ "load1" ∷ "load5"
    ∷ "load15" ∷ "tcp_conn_count" ∷ "udp_conn_count" ∷ "process_count" ∷ "temperature_max" ∷ []

-- `IsSupportedType`
unfoldable pub is_supported_type : Rule → Bool
is_supported_type u = any (str_eq u.type) supported_types

-- `IsTransferDurationRule`
unfoldable pub is_transfer_duration_rule : Rule → Bool
is_transfer_duration_rule u =
    any (str_eq u.type) ("transfer_in_cycle" ∷ "transfer_out_cycle" ∷ "transfer_all_cycle" ∷ [])

-- `IsOfflineRule`
unfoldable pub is_offline_rule : Rule → Bool
is_offline_rule u = str_eq u.type "offline"

-- `DurationInt`
unfoldable pub duration_int : Rule → Option ℕ
duration_int u = if ltb max_duration u.duration then none else some u.duration

-- `ruleIndex >= len(point) || point[ruleIndex]`
abbrev pub or_true : Option Bool → Bool
or_true none = true
or_true (some b) = b

abbrev pub passed_at : ℕ → List Bool → Bool
passed_at index point = or_true (get_elem? point index)

-- `points[len(points)-duration:]`, where there are enough points
abbrev pub latest : ℕ → List (List Bool) → List (List Bool)
latest duration points = drop (length points - duration) points

-- The variables of the loop: the greatest of `durations`, `hasPassedRule` and `validRules`.
pub record Progress : Type 0 where
  pub longest : ℕ
  pub has_passed : Bool
  pub valid_rules : ℕ

-- `boundCheck`
abbrev pub bound_check : (length duration : ℕ) → Bool → Bool
bound_check length duration passed = if passed then true else ltb length duration

abbrev pub last_passed : ℕ → Option (List Bool) → Bool
last_passed index none = false
last_passed index (some point) = passed_at index point

-- A transfer cycle: the last point decides.
unfoldable pub check_cycle : ℕ → List (List Bool) → Progress → Progress
check_cycle index points p = record {
  longest = max p.longest 1;
  has_passed = if p.has_passed then true else last_passed index (get_last? points);
  valid_rules = p.valid_rules + 1;
}

-- The backward loop of an offline condition: how many points it visits, and whether one passed.
unfoldable pub until_passed : ℕ → List (List Bool) → ℕ × Bool
until_passed index [] = (0, false)
until_passed index (point ∷ points) =
    let (n, b) = until_passed index points in
    if passed_at index point then (1, true) else (n + 1, b)

unfoldable pub backward : List (List Bool) → List (List Bool)
backward [] = []
backward (point ∷ points) = backward points ++ (point ∷ [])

-- An offline condition.
unfoldable pub check_offline : ℕ → ℕ → List (List Bool) → Progress → Progress
unfolding until_passed backward
check_offline index duration points p =
    if bound_check (length points) duration p.has_passed
    then record p { has_passed = true; valid_rules = p.valid_rules + 1 }
    else let (fail, passed) = until_passed index (backward (latest duration points)) in
      record { longest = max p.longest fail; has_passed = passed; valid_rules = p.valid_rules + 1 }

-- The points of the window that failed.
unfoldable pub count_failed : ℕ → List (List Bool) → ℕ
count_failed index [] = 0
count_failed index (point ∷ points) =
    let rest = count_failed index points in
    if elim (get_elem? point index) [ none ↦ true | some b ↦ not b ] then rest + 1 else rest

-- Any other condition. `float64(fail)*100/float64(total) <= 70` is exact for totals up to 86400: the
-- product and 70 have exact floats, and a quotient above 70 is above it by more than the rounding.
unfoldable pub check_regular : ℕ → ℕ → List (List Bool) → Progress → Progress
unfolding count_failed
check_regular index duration points p =
    if bound_check (length points) duration p.has_passed
    then record p { has_passed = true; valid_rules = p.valid_rules + 1 }
    else record {
      longest = max p.longest duration;
      has_passed = leb (count_failed index (latest duration points) * 100) (70 * duration);
      valid_rules = p.valid_rules + 1;
    }

unfoldable pub check_duration : ℕ → Rule → ℕ → List (List Bool) → Progress → Progress
unfolding is_offline_rule check_offline check_regular
check_duration index rule duration points p =
    if duration == 0
    then p
    else if is_offline_rule rule
    then check_offline index duration points p
    else check_regular index duration points p

-- One round of the loop.
unfoldable pub check_rule : ℕ → Option Rule → List (List Bool) → Progress → Progress
unfolding is_supported_type is_transfer_duration_rule duration_int check_cycle check_duration
check_rule index none points p = p
check_rule index (some rule) points p =
    if is_supported_type rule
    then (if is_transfer_duration_rule rule
        then check_cycle index points p
        else elim (duration_int rule) [
          | none ↦ p
          | some duration ↦ check_duration index rule duration points p
        ])
    else p

unfoldable pub check_rules : ℕ → List (Option Rule) → List (List Bool) → Progress → Progress
unfolding check_rule
check_rules index [] points p = p
check_rules index (rule ∷ rules) points p =
    check_rules (index + 1) rules points (check_rule index rule points p)

abbrev pub start : Progress
start = record { longest = 0; has_passed = false; valid_rules = 0 }

abbrev pub verdict : Progress → ℕ × Bool
verdict p = if p.valid_rules == 0 then (0, true) else (p.longest, p.has_passed)

-- `Check`
unfoldable pub check : List (Option Rule) → List (List Bool) → ℕ × Bool
unfolding check_rules
check rules points = verdict (check_rules 0 rules points start)

-- What one condition needs of the samples.
unfoldable pub need : Option Rule → ℕ
unfolding is_supported_type is_transfer_duration_rule duration_int
need none = 0
need (some rule) =
    if is_supported_type rule
    then (if is_transfer_duration_rule rule
        then 1
        else elim (duration_int rule) [ none ↦ 0 | some duration ↦ duration ])
    else 0

-- `RetentionWindow`
unfoldable pub retention_window : List (Option Rule) → ℕ
unfolding need
retention_window [] = 0
retention_window (rule ∷ rules) = max (need rule) (retention_window rules)
