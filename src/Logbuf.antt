-- ===== src/Logbuf.antt =====
-- The in-memory tail of the log: ha-lua/internal/logbuf/logbuf.go.
pub mod Handler
pub mod Ring
