-- ===== src/Ynab.antt =====
-- ynab/: the client of the YNAB API.
pub mod Api
pub mod Governor
