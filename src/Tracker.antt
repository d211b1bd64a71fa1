-- ===== src/Tracker.antt =====
-- internal/tracker: the pods that each ModelValidation resource has in its namespace.
pub mod Info
pub mod Mapping
pub mod State
pub mod Queue
pub mod Service
pub mod Status
