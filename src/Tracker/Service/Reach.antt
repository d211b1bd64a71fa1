-- ===== src/Tracker/Service/Reach.antt =====
-- internal/tracker/status_tracker.go: every run of the tracker, its queue and its worker, and what
-- the worker leaves on the API server.
use model_validation_operato.Base.{
  ◌≡◌, refl, ℕ, String, Option, none, some, List, inl, inr, Option-cases, arith, NamespacedName,
  key_eq,
}
use model_validation_operato.Base.Map
use model_validation_operato.Api.{ModelValidation, ModelValidationStatus}
use model_validation_operato.Kube.{Pod, Finalizers, Fetch}
use model_validation_operato.Tracker.Info.{ModelValidationInfo}
use model_validation_operato.Tracker.State.{
  StatusTracker, add_model_validation, remove_model_validation, process_pod_event,
  process_seed_pods, remove_pod_event, remove_pod_by_name,
}
use model_validation_operato.Tracker.State.Filed.{
  IsFiled, IsFiled-new, IsFiled-same, add_model_validation-IsFiled, remove_model_validation-IsFiled,
  process_pod_event-IsFiled, process_seed_pods-IsFiled, remove_pod_event-IsFiled,
  remove_pod_by_name-IsFiled,
}
use model_validation_operato.Tracker.Status.Rounds.{process_next_update-IsFiled}
use model_validation_operato.Tracker.Status.Stored.{IsCurrent, stored_after-IsCurrent}
use model_validation_operato.Tracker.Status.Written.{update, status_after}
use model_validation_operato.Tracker.Queue.{fire, advance}
use model_validation_operato.Tracker.Queue.Calls
use model_validation_operato.Tracker.Queue.Calls.{WorkQueue}
use model_validation_operato.Tracker.Service.{
  Service, new_service, operate, next_update, worker_round, begin_stop,
}
use model_validation_operato.Base.{Bool-cases}

module _ (W : WorkQueue) (digest : String → String) (F : Finalizers) where
  -- A step of the tracker with its queue: an event, each with what it makes the queue do; the filing
  -- of seeded pods, one or several at once; a round of the worker, with any answers of the API server; a timer that
  -- fires; a statement of a callback; and Stop, once it does not wait any more.
  pub data Step (s : Service) : Service → Type 0 where
    mv_added : (mv : ModelValidation) → Step s (operate W (add_model_validation digest mv) s)
    mv_removed : (key : NamespacedName) → Step s (operate W (remove_model_validation key) s)
    pod_seen : (pod : Pod) → Step s (operate W (process_pod_event F pod) s)
    pods_seeded :
        (pods : List Pod) (key : NamespacedName)
        → Step s (operate W (process_seed_pods F pods key) s)
    pod_deleted : (uid : String) → Step s (operate W (remove_pod_event uid) s)
    pod_gone : (name : NamespacedName) → Step s (operate W (remove_pod_by_name name) s)
    worked :
        (write : ModelValidationStatus → Option String) (now : ℕ)
        (fetch : NamespacedName → Fetch ModelValidation)
        → Step s (worker_round W digest write now fetch s)
    fired : (id : ℕ) → Step s (record s { queue = fire id s.queue })
    advanced : (g : ℕ) → Step s (record s { queue = advance W.len g s.queue })
    stopped : (r : Service) → begin_stop s ≡ some r → Step s r

  pub data Reach : Service → Type 0 where
    start : Reach new_service
    next : {s r : Service} → Reach s → Step s r → Reach r

  operate-IsFiled :
      (op : StatusTracker → StatusTracker) (s : Service)
      → ((st : StatusTracker) → IsFiled st → IsFiled (op st))
      → IsFiled s.tracker
      → IsFiled (operate W op s).tracker
  unfolding operate
  operate-IsFiled op s keep f = keep _ (IsFiled-same s.tracker _ refl f)

  next_update-IsFiled :
      (write : ModelValidationStatus → Option String) (now : ℕ)
      (fetch : NamespacedName → Fetch ModelValidation) (s : Service)
      → IsFiled s.tracker
      → IsFiled (next_update W digest write now fetch s).tracker
  unfolding next_update Calls.get
  next_update-IsFiled write now fetch s f = elim (Option-cases (W.head s.queue.calls)) [
    | inl e ↦ rw e f
    | inr (key, e) ↦ rw e (
        operate-IsFiled _ (record s { queue = (Calls.get W s.queue).1 })
          (process_next_update-IsFiled digest write now key (fetch key)) f)
  ]

  worker_round-IsFiled :
      (write : ModelValidationStatus → Option String) (now : ℕ)
      (fetch : NamespacedName → Fetch ModelValidation) (s : Service)
      → IsFiled s.tracker
      → IsFiled (worker_round W digest write now fetch s).tracker
  unfolding worker_round Calls.get
  worker_round-IsFiled write now fetch s f = elim (Bool-cases s.stopping) [
    | inl e ↦ rw e f
    | inr e ↦ rw e (next_update-IsFiled write now fetch s f)
  ]

  begin_stop-tracker : (s r : Service) → begin_stop s ≡ some r → r.tracker ≡ s.tracker
  unfolding begin_stop
  begin_stop-tracker s r h = ground arith

  Step-IsFiled : {s r : Service} → Step s r → IsFiled s.tracker → IsFiled r.tracker
  Step-IsFiled {s} (mv_added mv) f = operate-IsFiled _ s (add_model_validation-IsFiled digest mv) f
  Step-IsFiled {s} (mv_removed key) f = operate-IsFiled _ s (remove_model_validation-IsFiled key) f
  Step-IsFiled {s} (pod_seen pod) f = operate-IsFiled _ s (process_pod_event-IsFiled F pod) f
  Step-IsFiled {s} (pods_seeded pods key) f =
      operate-IsFiled _ s (process_seed_pods-IsFiled F pods key) f
  Step-IsFiled {s} (pod_deleted uid) f = operate-IsFiled _ s (remove_pod_event-IsFiled uid) f
  Step-IsFiled {s} (pod_gone name) f = operate-IsFiled _ s (remove_pod_by_name-IsFiled name) f
  Step-IsFiled {s} (worked write now fetch) f = worker_round-IsFiled write now fetch s f
  Step-IsFiled (fired id) f = f
  Step-IsFiled (advanced g) f = f
  Step-IsFiled {s} (stopped r h) f = rw (begin_stop-tracker s r h) f

  pub Reach-IsFiled : {s : Service} → Reach s → IsFiled s.tracker
  unfolding new_service
  Reach-IsFiled start = IsFiled-new
  Reach-IsFiled (next r t) = Step-IsFiled t (Reach-IsFiled r)

  -- In every state that the tracker, its queue and its worker can reach, in whatever order events,
  -- timers, callbacks and rounds of the worker came and whatever the API server answered: an update
  -- of a tracked resource that ends without an error leaves the resource with a status that is what
  -- the tracker then knows. For every UID, a pod with it is in the list of the state that the tracker
  -- has for the UID and in no other list, and in no list when it is not tracked. The entries of each
  -- list are, by name and UID and in some order, the pods tracked in its state, each once, and each
  -- count is the length of its list (as a 32-bit integer). The method is that of the tracker.
  pub Reach-IsCurrent :
      {s : Service} (write : ModelValidationStatus → Option String) (now : ℕ) (key : NamespacedName)
      (mv : ModelValidation) (info : ModelValidationInfo)
      → Reach s
      → Map.get key s.tracker.model_validations ≡ some info
      → (update digest write now key mv s.tracker).error ≡ none
      → IsCurrent info (status_after digest write now key mv s.tracker)
  Reach-IsCurrent {s} write now key mv info r t e =
      stored_after-IsCurrent digest write now key mv info s.tracker
        ((Reach-IsFiled r).infos key info t) t e
