-- ===== src/Db.antt =====
-- phono-junk-db/src.
pub mod Overrides
