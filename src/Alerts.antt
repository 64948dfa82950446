-- ===== src/Alerts.antt =====
-- The alert service (main (3).py): the anomaly detector and the pipeline that an alert goes through.
pub mod Detector
pub mod Desk
pub mod Pipeline
