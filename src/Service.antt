-- ===== src/Service.antt =====
-- network/service: services that are registered by type and name, started and stopped together.
pub mod TypeMap
pub mod Helper
pub mod Factory
pub mod Manager
mod Tests
