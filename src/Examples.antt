-- ===== src/Examples.antt =====
-- The theorems at concrete inputs.
mod Toc
mod AccurateRip
mod Client
mod Identify
mod Offset
mod Scoring
mod Staged
mod Overrides
mod Scan
mod Session
mod Extract
