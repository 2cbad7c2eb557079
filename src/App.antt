-- ===== src/App.antt =====
-- The demo workload: app/internal and app/cmd.
pub mod Queue
pub mod Work
pub mod Worker
pub mod Api
