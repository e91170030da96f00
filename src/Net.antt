-- ===== src/Net.antt =====
-- The classes of network/net.
pub mod Wire
pub mod Header
pub mod Reader
pub mod Message
pub mod Errors
pub mod Batch
pub mod Connection
pub mod IosPool
pub mod TcpServer
pub mod Tests
