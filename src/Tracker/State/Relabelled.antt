-- ===== src/Tracker/State/Relabelled.antt =====
-- internal/tracker/status_tracker.go: the event of a pod whose label names another resource than
-- before.
use model_validation_operato.Base.{◌≡◌, ◌≢◌, some, arith, NamespacedName, key_eq, string_eq}
use model_validation_operato.Base.Map
use model_validation_operato.Kube.{Pod, Finalizers}
use model_validation_operato.Metrics.{PodState}
use model_validation_operato.Tracker.Info.{ModelValidationInfo, PodInfo}
use model_validation_operato.Tracker.State.{StatusTracker, process_pod_event, pod_info_of}
use model_validation_operato.Tracker.State.Consistent.{IsConsistent}
use model_validation_operato.Tracker.State.Views.{
  named_by, view_at, classify, view_at-process_pod_event,
}

-- A pod that is tracked under one resource, and whose label then names another tracked resource of
-- its namespace, is tracked under both after its event: under the new one by its finalizer and its
-- annotations, and under the old one as it was.
pub relabelled_stays :
    (F : Finalizers) (old : NamespacedName) (pod : Pod) (info : ModelValidationInfo) (s : PodState)
    (p : PodInfo) (st : StatusTracker)
    → IsConsistent st
    → (named_by pod).name ≢ ""
    → old ≢ named_by pod
    → Map.get (named_by pod) st.model_validations ≡ some info
    → view_at old pod.uid st ≡ some (s, p)
    → (view_at (named_by pod) pod.uid (process_pod_event F pod st)
        ≡ some (classify F pod info, pod_info_of pod))
      × (view_at old pod.uid (process_pod_event F pod st) ≡ some (s, p))
relabelled_stays F old pod info s p st c n d t v = (
  ground (arith, view_at-process_pod_event F (named_by pod) pod.uid pod st c),
  ground (arith, view_at-process_pod_event F old pod.uid pod st c),
)
