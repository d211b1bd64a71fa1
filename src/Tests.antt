-- ===== src/Tests.antt =====
-- The properties at concrete inputs.
mod Samples
mod Tracking
mod Infos
mod Statuses
mod Admission
mod Arguments
mod Controllers
mod Versions
mod Queues
mod Operators
mod Services
