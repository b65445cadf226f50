-- ===== src/Alert/Sentinel/Alternation.antt =====
-- The order of the notifications of one alert rule on one server, and how often a report counts.
use sakura_monitoring.Base.{
  ℕ, ◌≡◌, ◌≢◌, refl, Bool, true, false, Option, none, some, List, [], ◌∷◌, ◌++◌, ◌==◌, nat_eq,
  arith, Bool-cases, inl, inr, sym, ◌∙◌, map, All,
}
use mathlib.Core.List.{append-nil}
use sakura_monitoring.Alert.Timed.{Decision, unknown, passing, failing, check_timed_all}
use sakura_monitoring.Alert.Sentinel.{
  is_fail, AlertRule, Watch, Tick, Event, incident, resolved, fail_tasks, recover_tasks, refreshed,
  should_run_alert_fail_tasks, is_metric_rule, is_fresh, drop_old, timed_retention, sampled_at,
  report, observe, check_status_for_server, on_refresh_or_add_alert,
}

-- What happens to the pair: a tick, or a new version of the rule.
pub data Occurrence : Type 0 where
  ticks : Tick → Occurrence
  refreshes : AlertRule → Occurrence

-- The events are in order: an incident is notified where none is open, a recovery where one is, the
-- tasks of either only while an incident is open, and a new version of the rule closes it.
abbrev pub IsAlternating : (is_open : Bool) → List Event → Type 0
IsAlternating is_open [] = Unit
IsAlternating is_open (incident ∷ es) = (is_open ≡ false) × IsAlternating true es
IsAlternating is_open (resolved ∷ es) = (is_open ≡ true) × IsAlternating false es
IsAlternating is_open (fail_tasks ∷ es) = (is_open ≡ true) × IsAlternating is_open es
IsAlternating is_open (recover_tasks ∷ es) = (is_open ≡ true) × IsAlternating is_open es
IsAlternating is_open (refreshed ∷ es) = IsAlternating false es

-- An output and what follows it are in order, if what follows is in order from the state reached.
abbrev Continues : Bool → List Event × Watch → Type 0
Continues is_open out =
    (rest : List Event)
    → IsAlternating (is_fail (out.1).prev) rest
    → IsAlternating is_open (out.0 ++ rest)

report-Continues :
    (a : AlertRule) (d : Decision) (w : Watch) → Continues (is_fail w.prev) (report a d w)
unfolding report is_fail should_run_alert_fail_tasks
report-Continues a unknown w rest h = h
report-Continues a failing w rest h = ground arith
report-Continues a passing w rest h = ground arith

report-last_metric_seq :
    (a : AlertRule) (d : Decision) (w : Watch)
    → (report a d w).1.last_metric_seq ≡ w.last_metric_seq
unfolding report
report-last_metric_seq a unknown w = refl
report-last_metric_seq a failing w = refl
report-last_metric_seq a passing w = refl

module _ (seventy : ℕ → ℕ) where
  observe-Continues :
      (a : AlertRule) (t : Tick) (known : Option (List Bool)) (w : Watch)
      → Continues (is_fail w.prev) (observe seventy a t known w)
  unfolding observe
  observe-Continues a t none w rest h = h
  observe-Continues a t (some values) w rest h =
      let kept =
        drop_old (timed_retention a.rules) t.trimmed
          (w.samples ++ (record { at = sampled_at a t; values = values } ∷ [])) in
      report-Continues a (check_timed_all seventy t.judged a.rules kept)
        (record w { samples = kept }) rest h

  check_status_for_server-Continues :
      (a : AlertRule) (t : Tick) (w : Watch)
      → Continues (is_fail w.prev) (check_status_for_server seventy a t w)
  unfolding check_status_for_server
  check_status_for_server-Continues a t w rest h = ground (
    arith,
    observe-Continues a t t.snapshot w rest,
    observe-Continues a t t.snapshot (record w { last_metric_seq = t.report_sequence }) rest,
  )

  -- The rule in force and the state after one occurrence, with its events
  unfoldable pub occur : Occurrence → AlertRule → Watch → List Event × Watch
  unfolding check_status_for_server on_refresh_or_add_alert
  occur (ticks t) a w = check_status_for_server seventy a t w
  occur (refreshes b) a w = on_refresh_or_add_alert w

  abbrev pub rule_after : Occurrence → AlertRule → AlertRule
  rule_after (ticks t) a = a
  rule_after (refreshes b) a = b

  -- The events of a list of occurrences, in their order.
  unfoldable pub events : List Occurrence → AlertRule → Watch → List Event
  unfolding occur
  events [] a w = []
  events (x ∷ xs) a w = let out = occur x a w in out.0 ++ events xs (rule_after x a) out.1

  occur-Continues :
      (x : Occurrence) (a : AlertRule) (w : Watch) → Continues (is_fail w.prev) (occur x a w)
  unfolding occur on_refresh_or_add_alert is_fail
  occur-Continues (ticks t) a w rest h = check_status_for_server-Continues a t w rest h
  occur-Continues (refreshes b) a w rest h = h

  -- Whatever the conditions say at each tick, and however often the rule is changed in between, the
  -- events are in order from the state on: an incident is notified only where none is open, a recovery
  -- only where one is, and the tasks of both run only while an incident is open.
  pub events-IsAlternating :
      (xs : List Occurrence) (a : AlertRule) (w : Watch)
      → IsAlternating (is_fail w.prev) (events xs a w)
  unfolding events
  events-IsAlternating [] a w = tt
  events-IsAlternating (x ∷ xs) a w =
      occur-Continues x a w (events xs (rule_after x a) (occur x a w).1)
        (events-IsAlternating xs (rule_after x a) (occur x a w).1)

  observe-last_metric_seq :
      (a : AlertRule) (t : Tick) (known : Option (List Bool)) (w : Watch)
      → (observe seventy a t known w).1.last_metric_seq ≡ w.last_metric_seq
  unfolding observe
  observe-last_metric_seq a t none w = refl
  observe-last_metric_seq a t (some values) w =
      let kept =
        drop_old (timed_retention a.rules) t.trimmed
          (w.samples ++ (record { at = sampled_at a t; values = values } ∷ [])) in
      report-last_metric_seq a (check_timed_all seventy t.judged a.rules kept)
        (record w { samples = kept })

  -- A report that was the last one counted changes nothing but the samples.
  counted_before :
      (t : Tick) (a : AlertRule) (w : Watch)
      → is_metric_rule a ≡ true
      → w.last_metric_seq ≡ t.report_sequence
      → ((check_status_for_server seventy a t w).0 ≡ [])
        × ((check_status_for_server seventy a t w).1.last_metric_seq ≡ t.report_sequence)
  unfolding check_status_for_server
  counted_before t a w m e =
      let same : (t.report_sequence == w.last_metric_seq) ≡ true = ground arith in
      elim (Bool-cases (is_fresh t)) [
        | inl f ↦ elim (Bool-cases (t.report_sequence == 0)) [
          | inl z ↦ rw (m, f, z) (refl, e)
          | inr z ↦ rw (m, f, z, same) (refl, e)
        ]
        | inr f ↦ rw (m, f) (refl, e)
      ]

  counted :
      (t : Tick) (a : AlertRule) (w : Watch)
      → is_metric_rule a ≡ true
      → is_fresh t ≡ true
      → t.report_sequence ≢ 0
      → (check_status_for_server seventy a t w).1.last_metric_seq ≡ t.report_sequence
  unfolding check_status_for_server
  counted t a w m f n = ground (
    arith,
    observe-last_metric_seq a t t.snapshot (record w { last_metric_seq = t.report_sequence }),
  )

  seen_again :
      (seq : ℕ) (xs : List Tick) (a : AlertRule) (w : Watch)
      → is_metric_rule a ≡ true
      → All (λ t. t.report_sequence ≡ seq) xs
      → w.last_metric_seq ≡ seq
      → events (map ticks xs) a w ≡ []
  unfolding events occur
  seen_again seq [] a w m all e = refl
  seen_again seq (t ∷ xs) a w m all e =
      let known = counted_before t a w m (e ∙ sym all.0) in
      let rest =
        seen_again seq xs a (check_status_for_server seventy a t w).1 m all.1 (known.1 ∙ all.0) in
      rw (known.0, rest)

  -- For a rule with a condition on metrics, a fresh report with a number other than 0 counts at most
  -- once: the ticks that see the same report again, one after the other, add no event, whatever their
  -- conditions say and however old the report is by then.
  pub events-once :
      (t : Tick) (xs : List Tick) (a : AlertRule) (w : Watch)
      → is_metric_rule a ≡ true
      → is_fresh t ≡ true
      → t.report_sequence ≢ 0
      → All (λ u. u.report_sequence ≡ t.report_sequence) xs
      → events (map ticks (t ∷ xs)) a w ≡ (check_status_for_server seventy a t w).0
  unfolding events occur
  events-once t xs a w m f n all =
      let rest =
        seen_again t.report_sequence xs a (check_status_for_server seventy a t w).1 m all
          (counted t a w m f n) in
      rw (rest, append-nil)
