-- ===== src/Runner.antt =====
-- A script's goroutine: ha-lua/internal/lua/runner.go.
pub mod Loop
