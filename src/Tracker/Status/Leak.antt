-- ===== src/Tracker/Status/Leak.antt =====
-- internal/tracker/status_tracker.go: a status update that finds its resource deleted forgets the
-- resource, and not its place in the counter of the namespace.
use model_validation_operato.Base.{
  ◌≡◌, ℕ, ◌+◌, String, Option, some, arith, NamespacedName, key_eq, string_eq,
}
use model_validation_operato.Base.Map
use model_validation_operato.Kube.{not_found}
use model_validation_operato.Api.{ModelValidationStatus}
use model_validation_operato.Tracker.Info.{ModelValidationInfo}
use model_validation_operato.Tracker.State.{StatusTracker, count_at, remove_model_validation}
use model_validation_operato.Tracker.State.Counts.{count_in, count_in-delete}
use model_validation_operato.Tracker.State.Consistent.{IsConsistent}
use model_validation_operato.Tracker.Status.{do_update_status}

-- From a consistent state, a status update that finds its tracked resource deleted leaves the
-- counter of the namespace one above the number of resources that are still tracked there, and the
-- removal of the resource that follows changes nothing.
pub do_update_status_leaks :
    (digest : String → String) (write : ModelValidationStatus → Option String) (now : ℕ)
    (key : NamespacedName) (info : ModelValidationInfo) (st : StatusTracker)
    → IsConsistent st
    → Map.get key st.model_validations ≡ some info
    → let st' = (do_update_status digest write now key not_found st).tracker in
      (count_at key.namespace st'.mv_namespaces ≡ count_in key.namespace st'.model_validations + 1)
      × (remove_model_validation key st' ≡ st')
unfolding do_update_status remove_model_validation
do_update_status_leaks digest write now key info st c e = (
  ground (
    arith,
    c.counts.counted key.namespace,
    count_in-delete key.namespace key st.model_validations c.nodup (rw e (λ h. cc)),
  ),
  ground (arith, Map.get-delete key key st.model_validations),
)
