-- ===== src/Tracker/State/Reach.antt =====
-- internal/tracker/status_tracker.go: the events of a run, in any order. The lock of the tracker
-- makes each of them one step; the pods that a new resource is seeded with come one by one,
-- between other events.
use model_validation_operato.Base.{String, NamespacedName}
use model_validation_operato.Kube.{Pod, Finalizers}
use model_validation_operato.Api.{ModelValidation}
use model_validation_operato.Tracker.State.{
  StatusTracker, new_status_tracker, add_model_validation, remove_model_validation,
  process_pod_event, process_seed_pod_event, remove_pod_event, remove_pod_by_name,
}
use model_validation_operato.Tracker.State.Consistent.{IsConsistent, IsConsistent-new}
use model_validation_operato.Tracker.State.Invariant.{
  add_model_validation-IsConsistent, remove_model_validation-IsConsistent,
  process_pod_event-IsConsistent, process_seed_pod_event-IsConsistent,
  remove_pod_event-IsConsistent, remove_pod_by_name-IsConsistent,
}

module _ (digest : String → String) (F : Finalizers) where
  pub data Step (st : StatusTracker) : StatusTracker → Type 0 where
    mv_added : (mv : ModelValidation) → Step st (add_model_validation digest mv st)
    mv_removed : (key : NamespacedName) → Step st (remove_model_validation key st)
    pod_seen : (pod : Pod) → Step st (process_pod_event F pod st)
    pod_seeded : (pod : Pod) (key : NamespacedName) → Step st (process_seed_pod_event F pod key st)
    pod_deleted : (uid : String) → Step st (remove_pod_event uid st)
    pod_gone : (name : NamespacedName) → Step st (remove_pod_by_name name st)

  pub data Reach : StatusTracker → Type 0 where
    start : Reach new_status_tracker
    next : {st st' : StatusTracker} → Reach st → Step st st' → Reach st'

  pub Step-IsConsistent :
      {st st' : StatusTracker} → Step st st' → IsConsistent st → IsConsistent st'
  Step-IsConsistent {st} (mv_added mv) c = add_model_validation-IsConsistent digest mv st c
  Step-IsConsistent {st} (mv_removed key) c = remove_model_validation-IsConsistent key st c
  Step-IsConsistent {st} (pod_seen pod) c = process_pod_event-IsConsistent F pod st c
  Step-IsConsistent {st} (pod_seeded pod key) c = process_seed_pod_event-IsConsistent F pod key st c
  Step-IsConsistent {st} (pod_deleted uid) c = remove_pod_event-IsConsistent uid st c
  Step-IsConsistent {st} (pod_gone name) c = remove_pod_by_name-IsConsistent name st c

  -- In every state that the events of pods and resources can reach, with no status update that
  -- finds its resource deleted, each resource is tracked once, each of its pods is in
  -- one of the three maps, under its own UID, no injected pod differs from the configuration, and
  -- the counter of each namespace is the number of its tracked resources.
  pub Reach-IsConsistent : {st : StatusTracker} → Reach st → IsConsistent st
  Reach-IsConsistent start = IsConsistent-new
  Reach-IsConsistent (next r s) = Step-IsConsistent s (Reach-IsConsistent r)
