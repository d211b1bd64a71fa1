-- ===== src/Tracker/Queue/Calls.antt =====
-- internal/tracker/debounced_queue.go: the operations that go straight to the work queue, and the
-- two that wait.
use model_validation_operato.Base.{
  ℕ, Bool, true, false, Option, List, [], ◌∷◌, ◌++◌, ◌==◌, nat_eq, ◌||◌, NamespacedName,
}
use model_validation_operato.Tracker.Queue.{
  DebouncedQueue, is_shut_down, count, panicked, WorkCall, work_get, work_done,
  work_add_rate_limited, work_forget, update_queue_size_metric,
}

-- What the work queue answers after its calls: its length, the item that Get gives (none once it is
-- shut down and empty), and the number of retries of an item.
pub record WorkQueue : Type 0 where
  pub len : List WorkCall → ℕ
  pub head : List WorkCall → Option NamespacedName
  pub num_requeues : NamespacedName → List WorkCall → ℕ

abbrev ask : WorkCall → DebouncedQueue → DebouncedQueue
ask call q = record q { calls = q.calls ++ (call ∷ []) }

-- Does WaitForUpdates return in this state? A panic ends the program instead.
unfoldable pub updates_done : DebouncedQueue → Bool
updates_done q = elim q.wait_group [ count n ↦ n == 0 | panicked ↦ false ]

module _ (W : WorkQueue) where
  unfoldable pub get : DebouncedQueue → Option NamespacedName × DebouncedQueue
  get q = (W.head q.calls, ask work_get q)

  unfoldable pub done : NamespacedName → DebouncedQueue → DebouncedQueue
  unfolding update_queue_size_metric
  done item q = update_queue_size_metric W.len (ask (work_done item) q)

  unfoldable pub add_with_retry : NamespacedName → DebouncedQueue → DebouncedQueue
  unfolding update_queue_size_metric
  add_with_retry item q = elim (is_shut_down q) [
    | true ↦ q
    | false ↦ update_queue_size_metric W.len (ask (work_add_rate_limited item) q)
  ]

  unfoldable pub forget_retries : NamespacedName → DebouncedQueue → DebouncedQueue
  forget_retries item q = ask (work_forget item) q

  unfoldable pub get_retry_count : NamespacedName → DebouncedQueue → ℕ
  get_retry_count item q = W.num_requeues item q.calls

  unfoldable pub queue_len : DebouncedQueue → ℕ
  queue_len q = W.len q.calls

  -- WaitForCompletion behind WaitForUpdates, on the states of its ticks: it returns at the first
  -- one in which the work queue is empty or the queue has been shut down.
  unfoldable pub wait_for_completion : List DebouncedQueue → Bool
  unfolding queue_len
  wait_for_completion [] = false
  wait_for_completion (q ∷ qs) =
      let rest = wait_for_completion qs in (queue_len q == 0) || (is_shut_down q || rest)
