-- ===== src/Watch.antt =====
-- src/watch.rs: baselines, the check of all watched files, its rendering, and the alerts.
pub mod Check
pub mod Baselines
pub mod Again
pub mod Alerts
pub mod Loop
pub mod State
