-- ===== src/Serialize.antt =====
-- The readers of network/serialize.
pub mod Csv
mod Tests
