-- ===== src/Integrity.antt =====
-- The parts of automation_file/integrity.
pub mod Compare
pub mod Snapshots
pub mod Detect
