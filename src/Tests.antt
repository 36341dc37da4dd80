-- ===== src/Tests.antt =====
-- Runs of the model on concrete data.
pub mod Tick
pub mod Tokens
pub mod Budget
pub mod Scan
pub mod Status
pub mod Ledger
pub mod Signin
pub mod Backups
pub mod Migrations
pub mod Revoking
pub mod Archived
