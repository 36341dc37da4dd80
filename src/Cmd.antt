-- ===== src/Cmd.antt =====
-- cmd/: the health answer and the commands that decide something of their own.
pub mod Health
pub mod Revoke
pub mod Archived
