-- ===== src/Rpc.antt =====
-- The messages of network/rpc.
pub mod Wire
pub mod Protocol
pub mod MsgHeader
pub mod Context
pub mod Calls
pub mod Channel
pub mod Router
pub mod Task
pub mod ConnectTask
mod Tests
