-- ===== src/Backup.antt =====
-- backup/: the backups in a Turso database.
pub mod Turso
