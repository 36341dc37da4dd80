-- ===== src/Scan.antt =====
-- store/planscan.go with store/migrations/0004_plan_scan_keep_verdict.sql, and ScanDiscretionary of
-- sync/mirror.go: the scan for plans that have a live category named "Discretionary". The plan_scan
-- table stands alone: a transaction on it has no foreign key to check.
pub mod Redaction
pub mod Stored
pub mod Replacement
pub mod Category
pub mod Run
pub mod Ends
