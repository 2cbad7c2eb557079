-- ===== src/Examples.antt =====
-- The theorems applied at concrete inputs, over amounts in cents.
pub mod Data
mod Costs
mod Verdicts
mod Gates
mod Policies
mod Renders
mod Apps
mod Exports
mod Dashboards
mod Reports
