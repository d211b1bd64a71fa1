-- ===== src/Tracker/Queue.antt =====
-- internal/tracker/debounced_queue.go: timers that collect changes in front of a work queue.
--
-- The runtime's timers and the goroutines of their callbacks are part of the state. A timer and a
-- goroutine have numbers. Each operation that holds the queue's lock is one step, and so is each
-- statement of a callback, since other goroutines run between them. The work queue of client-go is
-- the sequence of the calls that it has received; what it answers is a parameter.
pub mod Calls
pub mod Counting
pub mod Quiet
pub mod Work
pub mod Delivery
pub mod Settled
pub mod Ends
pub mod Hazards
pub mod Debounce
use model_validation_operato.Base.{
  ℕ, zero, suc, ◌+◌, Bool, true, false, Option, none, some, List, [], ◌∷◌, ◌++◌, NamespacedName,
  key_eq, nat_eq,
}
use model_validation_operato.Base.Map
use model_validation_operato.Base.Map.{Map}

-- The calls of workqueue.TypedRateLimitingInterface.
pub data WorkCall : Type 0 where
  work_add work_add_rate_limited work_forget work_done : NamespacedName → WorkCall
  work_get work_shut_down : WorkCall

-- Where the callback of a timer stands: before its check of the shutdown, before it adds the item,
-- before it updates the metric, before it takes the lock, and before its deferred Done.
pub data Phase : Type 0 where
  entered checked queued measured deleted : Phase

pub record Callback : Type 0 where
  pub item : NamespacedName
  pub phase : Phase

-- A sync.WaitGroup. It panics when its counter falls below 0.
pub data WaitGroup : Type 0 where
  count : ℕ → WaitGroup
  panicked : WaitGroup

-- `timers` is debounceTimers, with the number of each timer. `armed` has the timers that will fire
-- and `callbacks` the goroutines of those that have fired; `next` is the next number. `sizes` has
-- the values that the metric of the queue's size was set to.
pub record DebouncedQueue : Type 0 where
  pub timers : Map NamespacedName ℕ
  pub armed : Map ℕ NamespacedName
  pub callbacks : Map ℕ Callback
  pub wait_group : WaitGroup
  pub stopped : Bool
  pub next : ℕ
  pub calls : List WorkCall
  pub sizes : List ℕ

unfoldable pub new_debounced_queue : DebouncedQueue
new_debounced_queue = record {
  timers = [];
  armed = [];
  callbacks = [];
  wait_group = count 0;
  stopped = false;
  next = 0;
  calls = [];
  sizes = [];
}

abbrev pub wait_add : WaitGroup → WaitGroup
wait_add (count n) = count (n + 1)
wait_add panicked = panicked

abbrev pub wait_done : WaitGroup → WaitGroup
wait_done (count zero) = panicked
wait_done (count (suc n)) = count n
wait_done panicked = panicked

-- time.AfterFunc, with the entry that the queue keeps of the timer.
unfoldable pub start_timer : NamespacedName → DebouncedQueue → DebouncedQueue
start_timer item q = record q {
  timers = Map.put item q.next q.timers;
  armed = Map.put q.next item q.armed;
  wait_group = wait_add q.wait_group;
  next = q.next + 1;
}

-- `timer.Reset`: the timer will fire, whether it was waiting or has fired.
unfoldable pub reset_timer : ℕ → NamespacedName → DebouncedQueue → DebouncedQueue
reset_timer id item q = record q { armed = Map.put id item q.armed }

-- `isShutDown`, by the closed channel stopCh.
abbrev pub is_shut_down : DebouncedQueue → Bool
is_shut_down q = q.stopped

unfoldable pub add : NamespacedName → DebouncedQueue → DebouncedQueue
unfolding start_timer reset_timer
add item q = elim (is_shut_down q) [
  | true ↦ q
  | false ↦ elim (Map.get item q.timers) [
    | some id ↦ reset_timer id item q
    | none ↦ start_timer item q
  ]
]

-- The runtime starts the callback of an armed timer.
unfoldable pub fire : ℕ → DebouncedQueue → DebouncedQueue
fire id q = elim (Map.get id q.armed) [
  | none ↦ q
  | some item ↦ record q {
    armed = Map.delete id q.armed;
    callbacks = Map.put q.next (record { item = item; phase = entered }) q.callbacks;
    next = q.next + 1;
  }
]

-- The deferred Done, with which the goroutine ends.
abbrev pub finish : ℕ → DebouncedQueue → DebouncedQueue
finish g q = record q { callbacks = Map.delete g q.callbacks; wait_group = wait_done q.wait_group }

abbrev pub move : ℕ → NamespacedName → Phase → DebouncedQueue → DebouncedQueue
move g item phase q = record q {
  callbacks = Map.put g (record { item = item; phase = phase }) q.callbacks;
}

-- `len` is the length that the work queue has after its calls.
module _ (len : List WorkCall → ℕ) where
  unfoldable pub update_queue_size_metric : DebouncedQueue → DebouncedQueue
  update_queue_size_metric q = elim (is_shut_down q) [
    | true ↦ q
    | false ↦ record q { sizes = q.sizes ++ (len q.calls ∷ []) }
  ]

  -- The next statement of a callback.
  unfoldable pub advance_from : ℕ → NamespacedName → Phase → DebouncedQueue → DebouncedQueue
  unfolding update_queue_size_metric
  advance_from g item entered q = elim (is_shut_down q) [
    | true ↦ finish g q
    | false ↦ move g item checked q
  ]
  advance_from g item checked q =
      move g item queued (record q { calls = q.calls ++ (work_add item ∷ []) })
  advance_from g item queued q = move g item measured (update_queue_size_metric q)
  advance_from g item measured q =
      move g item deleted (record q { timers = Map.delete item q.timers })
  advance_from g item deleted q = finish g q

  unfoldable pub advance : ℕ → DebouncedQueue → DebouncedQueue
  unfolding advance_from
  advance g q = elim (Map.get g q.callbacks) [ none ↦ q | some c ↦ advance_from g c.item c.phase q ]

-- The loop of `ShutDown` over the timers.
unfoldable pub stop_timers : List ℕ → Map ℕ NamespacedName → Map ℕ NamespacedName
stop_timers [] armed = armed
stop_timers (id ∷ ids) armed = stop_timers ids (Map.delete id armed)

unfoldable pub shut_down : DebouncedQueue → DebouncedQueue
unfolding stop_timers
shut_down q = record q {
  timers = [];
  armed = stop_timers (Map.values q.timers) q.armed;
  stopped = true;
  calls = q.calls ++ (work_shut_down ∷ []);
  sizes = q.sizes ++ (0 ∷ []);
}
