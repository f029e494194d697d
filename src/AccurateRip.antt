-- ===== src/AccurateRip.antt =====
-- The crate phono-junk-accuraterip: checksums, the dBAR response file, and their comparison.
pub mod Crc
pub mod Error
pub mod Dbar
pub mod Verify
pub mod Offset
pub mod Client
