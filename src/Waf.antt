-- ===== src/Waf.antt =====
-- The firewall rows of upstream/nezha/model/waf.go.
pub mod Rows
pub mod Blocking
pub mod Lifting
mod Tests
