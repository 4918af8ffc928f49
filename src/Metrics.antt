-- ===== src/Metrics.antt =====
-- src/modules/metrics: live and historical figures for the dashboards.
pub mod Figures
pub mod Windows
pub mod Counters
pub mod Analytics
pub mod Service
