-- ===== src/Scheduler.antt =====
-- The timer engine behind ha.every, ha.at and ha.after: ha-lua/internal/scheduler/scheduler.go.
pub mod Timers
pub mod Engine
