-- ===== src/Status.antt =====
-- status/ and store/status.go: the Slack message that shows how finbot fares.
pub mod Slack
pub mod Store
pub mod Render
pub mod Run
pub mod Stored
