-- ===== src/Tests/Queues.antt =====
-- internal/tracker/debounced_queue.go at concrete events.
use model_validation_operato.Base.{
  ◌≡◌, refl, ℕ, List, false, arith, length, nat_eq, key_eq, string_eq,
}
use model_validation_operato.Base.Map
use model_validation_operato.Tracker.Queue.{
  DebouncedQueue, WorkCall, new_debounced_queue, add, fire, advance, advance_from, shut_down,
  start_timer, update_queue_size_metric,
}
use model_validation_operato.Tracker.Queue.Calls.{updates_done}
use model_validation_operato.Tracker.Queue.Counting.{IsCounted, IsCounted-new}
use model_validation_operato.Tracker.Queue.Quiet.{
  IsQuiet, IsCounted-add, start, next, added, fired, shut, Reach-IsCounted,
}
use model_validation_operato.Tracker.Queue.Work.{work, Turns, none_yet, and_then, fires, goes_on}
use model_validation_operato.Tracker.Queue.Hazards.{now, later, shut_down_strands}
use model_validation_operato.Tests.Samples.{key}

-- A work queue that nobody takes items from.
abbrev pub never_emptied : List WorkCall → ℕ
never_emptied calls = length calls

abbrev pub waiting : DebouncedQueue
waiting = add key new_debounced_queue

pub IsQuiet-new : IsQuiet key new_debounced_queue
unfolding new_debounced_queue Map.get
IsQuiet-new = tt

pub waiting-IsCounted : IsCounted waiting
waiting-IsCounted = IsCounted-add key new_debounced_queue IsCounted-new IsQuiet-new

Reach-IsCounted_example : IsCounted (shut_down (fire 0 waiting))
Reach-IsCounted_example =
    Reach-IsCounted never_emptied (next (next (next start (added key IsQuiet-new)) (fired 0)) shut)

-- The callback's steps, up to its end.
abbrev pub ran : ℕ → DebouncedQueue → DebouncedQueue
ran g q = let step = advance never_emptied g in step (step (step (step (step q))))

pub ends : Turns never_emptied waiting 6 (ran 1 (fire 0 waiting))
unfolding new_debounced_queue add start_timer fire advance advance_from update_queue_size_metric
    Map.get Map.put Map.delete nat_eq
ends =
    and_then
      (and_then
        (and_then
          (and_then
            (and_then (and_then none_yet (fires 0 (ground arith))) (goes_on 1 (ground arith)))
            (goes_on 1 (ground arith)))
          (goes_on 1 (ground arith)))
        (goes_on 1 (ground arith)))
      (goes_on 1 (ground arith))

pub no_work : work (ran 1 (fire 0 waiting)) ≡ 0
unfolding new_debounced_queue add start_timer fire advance advance_from update_queue_size_metric
    Map.get Map.put Map.delete nat_eq work
no_work = refl

pub not_stopped : new_debounced_queue.stopped ≡ false
unfolding new_debounced_queue
not_stopped = refl

shut_down_strands_example : updates_done (fire 0 (shut_down waiting)) ≡ false
shut_down_strands_example = shut_down_strands never_emptied key (later now (fired 0))
