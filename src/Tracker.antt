-- ===== src/Tracker.antt =====
-- Entity state: the memory mirror, the write-behind queue and the history: ha-lua/internal/state.
pub mod Mirror
pub mod Writer
pub mod History
pub mod Queries
