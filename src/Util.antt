-- ===== src/Util.antt =====
-- The helpers of network/util.
pub mod StringUtil
mod Tests
