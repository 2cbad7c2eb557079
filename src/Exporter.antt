-- ===== src/Exporter.antt =====
-- The cost exporter: exporter/internal and exporter/cmd.
pub mod Prometheus
pub mod Attribution
pub mod Gauges
