-- ===== src/Webhook.antt =====
-- internal/webhooks: the admission webhook that injects the validation agent into pods.
pub mod Args
pub mod Annotations
pub mod Mounts
pub mod Container
pub mod Telemetry
pub mod Handle
pub mod Version
