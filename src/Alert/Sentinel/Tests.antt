-- ===== src/Alert/Sentinel/Tests.antt =====
-- An outage of processor load that ends, and one report that two ticks see.
use sakura_monitoring.Base.{
  ℕ, ◌*◌, ◌/◌, ◌≡◌, refl, Bool, true, false, some, List, [], ◌∷◌, map, arith,
}
use sakura_monitoring.Alert.Check.{
  is_supported_type, is_offline_rule, is_transfer_duration_rule, duration_int,
}
use sakura_monitoring.Alert.Timed.{
  segment_end, span, measure, window_of, check_window, check_timed, check_all, check_timed_all,
}
use sakura_monitoring.Alert.Sentinel.{
  no_data, is_fail, AlertRule, Watch, Tick, incident, resolved, fail_tasks, recover_tasks,
  should_run_alert_fail_tasks, is_metric_rule, is_fresh, timed_retention, drop_old, report, observe,
  check_status_for_server,
}
use sakura_monitoring.Alert.Sentinel.Alternation.{
  ticks, IsAlternating, occur, events, events-IsAlternating, events-once,
}

abbrev threshold : ℕ → ℕ
threshold w = w * 7 / 10

abbrev load : AlertRule
load = record { rules = some (record { type = "cpu"; duration = 2 }) ∷ []; trigger_mode = 1 }

abbrev fresh : Watch
fresh = record { samples = []; prev = no_data; last_metric_seq = 0 }

-- The report of a number comes three seconds after the one before it.
abbrev report_of : ℕ → Bool → Tick
report_of n passed =
    let now = 3_000_000_000 * n in
    record {
      last_active = some now;
      has_state = true;
      report_sequence = n;
      snapshot = some (passed ∷ []);
      aged = now;
      sampled = now;
      trimmed = now;
      judged = now;
    }

abbrev outage : List Tick
outage = report_of 10 false ∷ report_of 11 false ∷ report_of 12 true ∷ report_of 13 true ∷ []

told :
    events threshold (map ticks outage) load fresh
    ≡ incident ∷ fail_tasks ∷ recover_tasks ∷ resolved ∷ []
unfolding events occur check_status_for_server observe report drop_old timed_retention is_fresh
    is_metric_rule is_fail should_run_alert_fail_tasks check_timed_all check_all check_timed
    check_window window_of measure span segment_end is_supported_type is_offline_rule
    is_transfer_duration_rule duration_int
told = refl

events-IsAlternating_example :
    IsAlternating (is_fail no_data) (events threshold (map ticks outage) load fresh)
events-IsAlternating_example = events-IsAlternating threshold (map ticks outage) load fresh

events-once_example :
    events threshold (map ticks (report_of 10 false ∷ report_of 10 true ∷ [])) load fresh
    ≡ (check_status_for_server threshold load (report_of 10 false) fresh).0
unfolding is_metric_rule is_offline_rule is_fresh
events-once_example =
    events-once threshold (report_of 10 false) (report_of 10 true ∷ []) load fresh refl refl
      (ground arith) (refl, tt)
