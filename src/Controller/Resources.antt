-- ===== src/Controller/Resources.antt =====
-- internal/controller/modelvalidation_controller.go: how the tracker follows a resource.
pub mod Laws
use model_validation_operato.Base.{ℕ, String, Option, none, some, NamespacedName}
use model_validation_operato.Api.{ModelValidation}
use model_validation_operato.Kube.{Fetch, found, not_found, failed}
use model_validation_operato.Tracker.State.{
  StatusTracker, add_model_validation, remove_model_validation,
}
use model_validation_operato.Controller.{Reconciled, done, retry}

module _ (digest : String → String) where
  -- By whether the resource is being deleted.
  abbrev pub reconcile_found :
      NamespacedName → ModelValidation → StatusTracker → Option ℕ → StatusTracker × Reconciled
  reconcile_found key mv st (some _) = (remove_model_validation key st, done)
  reconcile_found key mv st none = (add_model_validation digest mv st, done)

  unfoldable pub reconcile :
      NamespacedName → Fetch ModelValidation → StatusTracker → StatusTracker × Reconciled
  reconcile key (found mv) st = reconcile_found key mv st mv.deletion_timestamp
  reconcile key not_found st = (remove_model_validation key st, done)
  reconcile key (failed e) st = (st, retry e)
