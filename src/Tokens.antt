-- ===== src/Tokens.antt =====
-- The personal access tokens: upstream/nezha/model/api_token.go.
pub mod Scopes
pub mod Servers
pub mod Decimal
pub mod Whitelist
pub mod Csv
pub mod Migration
pub mod Normalized
pub mod Migrated
mod Tests
