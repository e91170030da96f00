-- ===== src/Timer.antt =====
-- The timers of network/timer.
pub mod TimerManager
