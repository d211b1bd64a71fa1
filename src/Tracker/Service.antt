-- ===== src/Tracker/Service.antt =====
-- internal/tracker/status_tracker.go: the tracker together with its debounced queue and its worker.
-- What an operation of the tracker asks of its queue is delivered to the queue with it.
pub mod Runs
pub mod Reach
use model_validation_operato.Base.{
  ℕ, String, Bool, true, false, Option, none, some, List, [], ◌∷◌, NamespacedName, if◌then◌else◌,
}
use model_validation_operato.Api.{ModelValidation, ModelValidationStatus}
use model_validation_operato.Kube.{Pod, Finalizers, Fetch}
use model_validation_operato.Tracker.State
use model_validation_operato.Tracker.State.{StatusTracker, QueueCall, new_status_tracker}
use model_validation_operato.Tracker.Status.{process_next_update}
use model_validation_operato.Tracker.Queue
use model_validation_operato.Tracker.Queue.{DebouncedQueue, new_debounced_queue, shut_down}
use model_validation_operato.Tracker.Queue.Calls
use model_validation_operato.Tracker.Queue.Calls.{WorkQueue, updates_done}

-- `stopping` is the closed channel stopCh, and `working` says that the worker has not returned yet:
-- the counter of the wait group `wg`, to which `NewStatusTracker` adds the one worker.
pub record Service : Type 0 where
  pub tracker : StatusTracker
  pub queue : DebouncedQueue
  pub stopping : Bool
  pub working : Bool

unfoldable pub new_service : Service
new_service = record {
  tracker = new_status_tracker;
  queue = new_debounced_queue;
  stopping = false;
  working = true;
}

module _ (W : WorkQueue) where
  unfoldable pub deliver : List QueueCall → DebouncedQueue → DebouncedQueue
  deliver [] q = q
  deliver (State.add key ∷ calls) q = deliver calls (Queue.add key q)
  deliver (State.add_with_retry key ∷ calls) q = deliver calls (Calls.add_with_retry W key q)
  deliver (State.forget_retries key ∷ calls) q = deliver calls (Calls.forget_retries W key q)
  deliver (State.done key ∷ calls) q = deliver calls (Calls.done W key q)

  -- An operation of the tracker, with the calls that it makes.
  unfoldable pub operate : (StatusTracker → StatusTracker) → Service → Service
  unfolding deliver
  operate op s =
      let st = op (record s.tracker { queue_calls = [] }) in
      record s { tracker = st; queue = deliver st.queue_calls s.queue }

  -- The goroutine of a new resource, on what the API server lists. An error of the listing is logged
  -- and forgotten.
  unfoldable pub seed_existing_pods :
      Finalizers → Option (List Pod) → NamespacedName → Service → Service
  unfolding operate
  seed_existing_pods F none key s = s
  seed_existing_pods F (some pods) key s = operate (State.process_seed_pods F pods key) s

  module _ (digest : String → String) (write : ModelValidationStatus → Option String) (now : ℕ)
      (fetch : NamespacedName → Fetch ModelValidation) where
    -- A call of processNextUpdate, whose Get gives a key or says that the queue is shut down.
    unfoldable pub next_update : Service → Service
    unfolding operate
    next_update s =
        let (item, q) = Calls.get W s.queue in
        let s' = record s { queue = q } in
        elim item [
          | none ↦ s'
          | some key ↦ operate (process_next_update digest write now key (fetch key)) s'
        ]

    -- A round of the worker's loop, which returns once the channel is closed.
    unfoldable pub worker_round : Service → Service
    unfolding next_update
    worker_round s = if s.stopping then record s { working = false } else next_update s

-- `Stop` up to its wait for the worker; none as long as WaitForUpdates does not return.
unfoldable pub begin_stop : Service → Option Service
begin_stop s =
    if updates_done s.queue
    then some (record s { queue = shut_down s.queue; stopping = true })
    else none

-- The wait of `Stop` for the worker; none as long as the worker has not returned.
unfoldable pub end_stop : Service → Option Service
end_stop s = if s.working then none else some s
