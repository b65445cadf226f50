-- ===== src/Alert/Sentinel.antt =====
-- One alert rule on one server over the ticks: upstream/nezha/service/singleton/alertsentinel.go. The state
-- is what `alertsStore`, `alertsPrevState` and `alertsLastMetricSeq` hold for the pair. The answer of
-- `SnapshotStatusWithRuntime` and the readings of the clock are part of a tick; a delivery and a call of
-- the triggered tasks are events.
pub mod Alternation
mod Tests
use sakura_monitoring.Base.{
  ℕ, ◌+◌, ◌*◌, max, Bool, true, false, not, ◌||◌, ◌&&◌, Option, none, some, List, [], ◌∷◌, ◌++◌,
  ltb, leb, ◌==◌, any, if◌then◌else◌, nat_eq,
}
use sakura_monitoring.Alert.Check.{Rule, is_offline_rule, is_transfer_duration_rule, duration_int}
use sakura_monitoring.Alert.Timed.{
  interval, max_age, TimedAlertPoint, Decision, unknown, passing, failing, check_timed_all,
}

-- `_RuleCheckNoData`, `_RuleCheckFail` and `_RuleCheckPass`
pub data RuleCheck : Type 0 where
  no_data fail pass : RuleCheck

unfoldable pub is_fail : RuleCheck → Bool
is_fail no_data = false
is_fail fail = true
is_fail pass = false

-- The fields of `AlertRule` that an evaluation reads.
pub record AlertRule : Type 0 where
  pub rules : List (Option Rule)
  pub trigger_mode : ℕ

pub record Watch : Type 0 where
  pub samples : List TimedAlertPoint
  pub prev : RuleCheck
  pub last_metric_seq : ℕ

-- What an evaluation finds: the last report of the server, none where there was no report, what the
-- conditions say, none where that is not known, and four readings of the clock.
pub record Tick : Type 0 where
  pub last_active : Option ℕ
  pub has_state : Bool
  pub report_sequence : ℕ
  pub snapshot : Option (List Bool)
  pub aged : ℕ
  pub sampled : ℕ
  pub trimmed : ℕ
  pub judged : ℕ

pub data Event : Type 0 where
  incident resolved fail_tasks recover_tasks refreshed : Event

-- `shouldRunAlertFailTasks`; `ModeAlwaysTrigger` is 0.
unfoldable pub should_run_alert_fail_tasks : ℕ → Bool → Bool
should_run_alert_fail_tasks mode is_new = is_new || mode == 0

abbrev pub is_metric_condition : Option Rule → Bool
is_metric_condition none = true
is_metric_condition (some rule) = not (is_offline_rule rule)

-- `metricRule`
unfoldable pub is_metric_rule : AlertRule → Bool
unfolding is_offline_rule
is_metric_rule a = any is_metric_condition a.rules

-- The report has a state and is at most `AlertSampleMaxAge` old.
unfoldable pub is_fresh : Tick → Bool
is_fresh t = elim t.last_active [
  | none ↦ false
  | some at ↦ t.has_state && leb t.aged (at + max_age) && leb at t.aged
]

abbrev longer : Option Rule → ℕ → ℕ
longer none longest = longest
longer (some rule) longest =
    if is_transfer_duration_rule rule then longest else elim (duration_int rule) [
      | none ↦ longest
      | some duration ↦ max longest (duration * interval + max_age)
    ]

-- `TimedRetention`
unfoldable pub timed_retention : List (Option Rule) → ℕ
unfolding is_transfer_duration_rule duration_int
timed_retention [] = max_age
timed_retention (rule ∷ rules) = longer rule (timed_retention rules)

-- The samples from the first one that is not before `now - retention` on.
unfoldable pub drop_old : (retention now : ℕ) → List TimedAlertPoint → List TimedAlertPoint
drop_old retention now [] = []
drop_old retention now (p ∷ ps) =
    let rest = drop_old retention now ps in if ltb (p.at + retention) now then rest else p ∷ ps

abbrev pub sampled_at : AlertRule → Tick → ℕ
sampled_at a t = elim t.last_active [
  | none ↦ t.sampled
  | some at ↦ if is_metric_rule a then at else t.sampled
]

-- The notifications and the tasks of a decision.
unfoldable pub report : AlertRule → Decision → Watch → List Event × Watch
unfolding should_run_alert_fail_tasks is_fail
report a unknown w = ([], w)
report a failing w =
    let is_new = not (is_fail w.prev) in
    let tasks = if should_run_alert_fail_tasks a.trigger_mode is_new then fail_tasks ∷ [] else [] in
    ((if is_new then incident ∷ tasks else tasks), record w { prev = fail })
report a passing w =
    ((if is_fail w.prev then recover_tasks ∷ resolved ∷ [] else []), record w { prev = pass })

module _ (seventy : ℕ → ℕ) where
  -- The evaluation from the answer of `SnapshotStatusWithRuntime` on
  unfoldable pub observe : AlertRule → Tick → Option (List Bool) → Watch → List Event × Watch
  unfolding report drop_old timed_retention check_timed_all is_metric_rule
  observe a t none w = ([], record w { samples = [] })
  observe a t (some values) w =
      let point : TimedAlertPoint = record { at = sampled_at a t; values = values } in
      let kept = drop_old (timed_retention a.rules) t.trimmed (w.samples ++ (point ∷ [])) in
      report a (check_timed_all seventy t.judged a.rules kept) (record w { samples = kept })

  -- `checkStatusForServer`
  unfoldable pub check_status_for_server : AlertRule → Tick → Watch → List Event × Watch
  unfolding observe is_fresh is_metric_rule
  check_status_for_server a t w =
      if is_metric_rule a
      then (if not (is_fresh t)
          then ([], record w { samples = [] })
          else if t.report_sequence == 0 || t.report_sequence == w.last_metric_seq
          then ([], w)
          else observe a t t.snapshot (record w { last_metric_seq = t.report_sequence }))
      else observe a t t.snapshot w

-- `OnRefreshOrAddAlert`, for one server of the rule: the deliveries are cancelled, the entries deleted.
unfoldable pub on_refresh_or_add_alert : Watch → List Event × Watch
on_refresh_or_add_alert w =
    (refreshed ∷ [], record { samples = []; prev = no_data; last_metric_seq = 0 })
