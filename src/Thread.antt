-- ===== src/Thread.antt =====
-- The threads of network/thread and the io_services of network/net/ios_pool.hpp.
pub mod ThreadPool
pub mod ExecutorPool
