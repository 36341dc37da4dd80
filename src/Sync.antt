-- ===== src/Sync.antt =====
-- sync/: ticks that keep the mirror current.
pub mod Mapping
pub mod Stitch
pub mod Links
pub mod Tick
pub mod Freshness
