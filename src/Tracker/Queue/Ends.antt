-- ===== src/Tracker/Queue/Ends.antt =====
-- internal/tracker/debounced_queue.go: the timers and callbacks can always run to their end.
use model_validation_operato.Base.{
  ◌≡◌, ◌≢◌, refl, ℕ, none, List, [], ◌∷◌, arith, nat_eq, NamespacedName,
}
use model_validation_operato.Base.Map
use model_validation_operato.Base.Map.{Map}
use model_validation_operato.Tracker.Queue.{DebouncedQueue, Callback, WorkCall, fire, advance}
use model_validation_operato.Tracker.Queue.Work.{work, Turn, fires, goes_on}
use model_validation_operato.Base.{◌⊎◌, inl, inr}

module _ (len : List WorkCall → ℕ) where
  -- What a queue can do next.
  data Next (q : DebouncedQueue) : Type 0 where
    idle : work q ≡ 0 → Next q
    turn : (r : DebouncedQueue) → Turn len q r → Next q

  head_there {κ} : {V : Type κ} (k : ℕ) (v : V) (m : Map ℕ V) → Map.get k ((k, v) ∷ m) ≢ none
  unfolding Map.get
  head_there k v m h = ground arith

  choose :
      (q : DebouncedQueue) (armed : Map ℕ NamespacedName) (callbacks : Map ℕ Callback)
      → q.armed ≡ armed
      → q.callbacks ≡ callbacks
      → Next q
  unfolding work
  choose q [] [] a c = idle (rw (a, c) refl)
  choose q ((id, item) ∷ m) callbacks a c =
      turn (fire id q) (fires id (rw a (head_there id item m)))
  choose q [] ((g, cb) ∷ m) a c = turn (advance len g q) (goes_on g (rw c (head_there g cb m)))

  -- Either a timer or a callback can go on, or no work is left.
  pub idle_or_on : (q : DebouncedQueue) → ((r : DebouncedQueue) × Turn len q r) ⊎ (work q ≡ 0)
  idle_or_on q = elim (choose q q.armed q.callbacks refl refl) [
    | idle e ↦ inr e
    | turn r t ↦ inl (r, t)
  ]
