-- ===== src/Alert.antt =====
-- The decision of an alert rule over its samples: `Check` and `RetentionWindow` of
-- upstream/nezha/model/alertrule.go, with the rule types of upstream/nezha/model/rule.go. A point is the
-- list of what each condition said at one tick, true where it passed. Durations count ticks. Sentinel is
-- the caller, in upstream/nezha/service/singleton/alertsentinel.go.
pub mod Check
pub mod Reference
pub mod Retention
pub mod Sentinel
pub mod Timed
pub mod Instants
pub mod Measuring
pub mod Coverage
mod Tests
