-- ===== src/App/Api.antt =====
-- app/cmd/api/main.go: the API that takes jobs and says how many wait.
pub mod Request
pub mod Readiness
pub mod Enqueue
