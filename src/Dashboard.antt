-- ===== src/Dashboard.antt =====
-- The demonstration dashboard: dashboard/*.go.
pub mod Demo
pub mod Api
pub mod Load
pub mod Drift
pub mod Server
pub mod Status
