-- ===== src/Tracker/Queue/Hazards.antt =====
-- internal/tracker/debounced_queue.go: a shutdown that the wait group does not survive.
use model_validation_operato.Base.{
  ◌≡◌, refl, ℕ, true, false, none, List, [], ◌∷◌, NamespacedName, key_eq, nat_eq,
}
use model_validation_operato.Base.Map
use model_validation_operato.Base.Map.{Map}
use model_validation_operato.Tracker.Queue.{
  DebouncedQueue, count, WorkCall, new_debounced_queue, add, start_timer, fire, advance, shut_down,
  stop_timers,
}
use model_validation_operato.Tracker.Queue.Debounce.{add_lem}
use model_validation_operato.Tracker.Queue.Calls.{updates_done}
use model_validation_operato.Tracker.Queue.Quiet.{Step, added, fired, advanced, shut}

-- A queue that is shut down with nothing to run, and n still counted.
record IsStranded (n : ℕ) (q : DebouncedQueue) : Type 0 where
  pub stopped : q.stopped ≡ true
  pub armed : q.armed ≡ []
  pub callbacks : q.callbacks ≡ []
  pub waiting : q.wait_group ≡ count n

fire_idle : (id : ℕ) (q : DebouncedQueue) → Map.get id q.armed ≡ none → fire id q ≡ q
unfolding fire
fire_idle id q e = rw (e, fire) refl

stop_timers-nil : (ids : List ℕ) → stop_timers ids [] ≡ []
unfolding stop_timers Map.delete
stop_timers-nil [] = refl
stop_timers-nil (id ∷ ids) = stop_timers-nil ids

shut_down-IsStranded : (n : ℕ) (q : DebouncedQueue) → IsStranded n q → IsStranded n (shut_down q)
unfolding shut_down
shut_down-IsStranded n q s = record {
  stopped = refl;
  armed = rw s.armed (stop_timers-nil (Map.values q.timers));
  callbacks = s.callbacks;
  waiting = s.waiting;
}

strands : (item : NamespacedName) → IsStranded 1 (shut_down (add item new_debounced_queue))
unfolding new_debounced_queue add start_timer shut_down stop_timers Map.put Map.get Map.delete
    Map.values nat_eq
strands item = record { stopped = refl; armed = refl; callbacks = refl; waiting = refl }

module _ (len : List WorkCall → ℕ) where
  -- Later states, by any steps.
  pub data Later (q : DebouncedQueue) : DebouncedQueue → Type 0 where
    now : Later q q
    later : {r s : DebouncedQueue} → Later q r → Step len r s → Later q s

  advance_idle : (g : ℕ) (q : DebouncedQueue) → Map.get g q.callbacks ≡ none → advance len g q ≡ q
  unfolding advance
  advance_idle g q e = rw (e, advance) refl

  Step-IsStranded : {n : ℕ} {q r : DebouncedQueue} → Step len q r → IsStranded n q → IsStranded n r
  Step-IsStranded {n} {q} (added item quiet) s =
      rw (add_lem item q true (Map.get item q.timers) s.stopped refl) s
  Step-IsStranded {n} {q} (fired id) s = rw (fire_idle id q (rw s.armed (Map.get-nil id))) s
  Step-IsStranded {n} {q} (advanced g) s = rw (advance_idle g q (rw s.callbacks (Map.get-nil g))) s
  Step-IsStranded {n} {q} shut s = shut_down-IsStranded n q s

  Later-IsStranded : {n : ℕ} {q r : DebouncedQueue} → Later q r → IsStranded n q → IsStranded n r
  Later-IsStranded now s = s
  Later-IsStranded (later l t) s = Step-IsStranded t (Later-IsStranded l s)

  -- A timer that ShutDown stops never counts the wait group down: after an item is added to
  -- a new queue and the queue is shut down, WaitForUpdates returns in no later state.
  pub shut_down_strands :
      {r : DebouncedQueue} (item : NamespacedName)
      → Later (shut_down (add item new_debounced_queue)) r
      → updates_done r ≡ false
  unfolding updates_done nat_eq
  shut_down_strands {r} item l = rw ((Later-IsStranded l (strands item)).waiting, updates_done) refl
