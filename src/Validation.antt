-- ===== src/Validation.antt =====
-- internal/validation: what the validation agent runs.
pub mod Parse
pub mod Verify
pub mod Log
