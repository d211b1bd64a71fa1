-- ===== src/Controller.antt =====
-- internal/controller: the reconcilers of pods, ModelValidations and TelemetryConfigs.
pub mod Pods
pub mod Resources
pub mod Telemetry
pub mod Network
use model_validation_operato.Base.{String, Option, none, some}

-- What a reconciler returns: nothing, or an error, after which controller-runtime calls it again.
pub data Reconciled : Type 0 where
  done : Reconciled
  retry : String → Reconciled

-- The label `result` of the reconcilers' metric.
unfoldable pub reconcile_result : Reconciled → String
reconcile_result done = "success"
reconcile_result (retry _) = "error"
