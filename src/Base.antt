-- ===== src/Base.antt =====
-- The base types of network/base.
pub mod DateTime
pub mod MemoryPool
pub mod MemoryStream
mod Tests
