-- ===== src/Tracker/Service/Runs.antt =====
-- internal/tracker/status_tracker.go: what an event leads to, and that Stop comes to its end.
use model_validation_operato.Base.{
  ◌≡◌, ◌≢◌, ◌<◌, ◌∙◌, refl, ap, subst, ℕ, true, false, none, some, [], ◌∷◌, ◌++◌, arith,
  NamespacedName, key_eq, string_eq, nat_eq,
}
use model_validation_operato.Base.Map
use model_validation_operato.Kube.{Pod, Finalizers}
use model_validation_operato.Tracker.State
use model_validation_operato.Tracker.State.{
  StatusTracker, QueueCall, process_pod_event, process_pod_event_common, text_at, enqueue,
}
use model_validation_operato.Tracker.State.Views.{named_by}
use model_validation_operato.Tracker.Queue
use model_validation_operato.Tracker.Queue.{DebouncedQueue, count, shut_down}
use model_validation_operato.Tracker.Queue.Calls.{WorkQueue, updates_done}
use model_validation_operato.Tracker.Queue.Counting.{IsCounted}
use model_validation_operato.Tracker.Queue.Quiet.{IsQuiet}
use model_validation_operato.Tracker.Queue.Work.{work, Turn, Turns, Turns-IsCounted, Turns-work}
use model_validation_operato.Tracker.Queue.Delivery.{adds}
use model_validation_operato.Tracker.Queue.Settled.{Turns-delivers, idle, stopped-Turns}
use model_validation_operato.Tracker.Queue.Ends.{idle_or_on}
use model_validation_operato.Tracker.Service.{
  Service, deliver, operate, begin_stop, end_stop, worker_round,
}
use model_validation_operato.Base.{String, Option, ◌+◌, ◌≤◌, ◌⊎◌, inl, inr}
use model_validation_operato.Api.{ModelValidation, ModelValidationStatus}
use model_validation_operato.Kube.{Fetch}

queue_calls-process_pod_event :
    (F : Finalizers) (pod : Pod) (st : StatusTracker)
    → (named_by pod).name ≢ ""
    → Map.get (named_by pod) st.model_validations ≢ none
    → (process_pod_event F pod st).queue_calls ≡ st.queue_calls ++ (State.add (named_by pod) ∷ [])
unfolding process_pod_event process_pod_event_common
queue_calls-process_pod_event F pod st n h = ground arith

module _ (W : WorkQueue) where
  queue-operate :
      (op : StatusTracker → StatusTracker) (key : NamespacedName) (s : Service)
      → (op (record s.tracker { queue_calls = [] })).queue_calls ≡ State.add key ∷ []
      → (operate W op s).queue ≡ Queue.add key s.queue
  unfolding operate deliver
  queue-operate op key s h = ap (λ calls. deliver W calls s.queue) h

  -- A pod's event for a tracked resource leads to an Add of this resource to the work queue: whatever
  -- order the timers and callbacks of the queue take behind it, once they have come to their end the
  -- work queue was given the resource more often than before, and WaitForUpdates returns; if the wait
  -- group and the timers of the queue are in step before the event (`IsCounted`), the queue is not
  -- shut down, and no callback for the resource is running at the event.
  pub process_pod_event_delivers :
      {r : DebouncedQueue} {n : ℕ} (F : Finalizers) (pod : Pod) (s : Service)
      → (named_by pod).name ≢ ""
      → Map.get (named_by pod) s.tracker.model_validations ≢ none
      → IsCounted s.queue
      → IsQuiet (named_by pod) s.queue
      → s.queue.stopped ≡ false
      → Turns W.len (operate W (process_pod_event F pod) s).queue n r
      → work r ≡ 0
      → (updates_done r ≡ true) × (adds (named_by pod) s.queue.calls < adds (named_by pod) r.calls)
  unfolding updates_done nat_eq
  process_pod_event_delivers {r} {n} F pod s named tracked c quiet running ts h =
      let asked = queue-operate (process_pod_event F pod) (named_by pod) s (
        queue_calls-process_pod_event F pod (record s.tracker { queue_calls = [] }) named
          tracked) in
      let (waited, more) =
        Turns-delivers W.len (named_by pod) s.queue c quiet running
          (subst (λ q. Turns W.len q n r) asked ts) h in
      (rw (waited, updates_done) refl, more)

  module _ (digest : String → String) (write : ModelValidationStatus → Option String) (now : ℕ)
      (fetch : NamespacedName → Fetch ModelValidation) where
    -- Stop goes on to close the channel and to shut the queue down, the next round of the worker
    -- returns, and Stop's wait for it is over.
    abbrev pub IsStopping : Service → Type 0
    IsStopping s =
        (r : Service) × (begin_stop s ≡ some r)
        × (r.stopping ≡ true)
        × (r.queue ≡ shut_down s.queue)
        × (end_stop (worker_round W digest write now fetch r)
            ≡ some (worker_round W digest write now fetch r))

    -- Stop comes to its end when nothing is added any more: from a state before the shutdown in which
    -- the wait group and the timers of the queue are in step (`IsCounted`), the timers and callbacks
    -- take at most as many steps as `work` counts, in whatever order; as long as Stop has to wait
    -- for them one of them can take a step; and when none can, Stop goes on, its shutdown makes the
    -- worker return in its next round, and the wait for the worker ends.
    pub stop_ends :
        {r : DebouncedQueue} {n : ℕ} (s : Service)
        → IsCounted s.queue
        → s.queue.stopped ≡ false
        → Turns W.len s.queue n r
        → (n + work r ≤ work s.queue)
          × (((q : DebouncedQueue) × Turn W.len r q) ⊎ IsStopping (record s { queue = r }))
    unfolding begin_stop end_stop updates_done nat_eq worker_round
    stop_ends {r} s c running ts = (
      Turns-work W.len ts c,
      elim (idle_or_on W.len r) [
        | inl t ↦ inl t
        | inr h ↦
            let waited =
              idle W.len r (Turns-IsCounted W.len ts c) (stopped-Turns W.len ts ∙ running) h in
            inr (
              record s { queue = shut_down r; stopping = true },
              rw (waited, updates_done) refl,
              refl,
              refl,
              refl,
            )
      ],
    )
