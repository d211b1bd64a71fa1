-- ===== src/Tracker/Queue/Settled.antt =====
-- internal/tracker/debounced_queue.go: how every run without further Adds ends.
use model_validation_operato.Base.{
  ◌≡◌, ◌≤◌, ◌<◌, ◌∙◌, refl, ap, ℕ, false, List, [], ◌∷◌, arith, length, inl, inr, Option-cases,
  NamespacedName, key_eq, nat_eq,
}
use model_validation_operato.Base.Map
use model_validation_operato.Base.Map.{Map}
use model_validation_operato.Base.Weights.{weight, weight_of-get}
use model_validation_operato.Tracker.Queue.{
  DebouncedQueue, count, Phase, entered, checked, queued, measured, deleted, WorkCall, add, fire,
  advance, advance_from, update_queue_size_metric, start_timer, reset_timer,
}
use model_validation_operato.Tracker.Queue.Counting.{IsCounted}
use model_validation_operato.Tracker.Queue.Quiet.{IsQuiet, IsCounted-add}
use model_validation_operato.Tracker.Queue.Work.{
  work, Turn, fires, goes_on, Turns, none_yet, and_then, Turns-IsCounted, whole, left,
}
use model_validation_operato.Tracker.Queue.Delivery.{
  IsPending, waits, runs, IsServed, adds, add-IsPending, fire-IsServed, advance-IsServed,
  calls-advance_from,
}

left_positive :
    (phase : Phase)
    → 1 ≤ left (record { item = record { namespace = ""; name = "" }; phase = phase })
left_positive entered = omega arith
left_positive checked = omega arith
left_positive queued = omega arith
left_positive measured = omega arith
left_positive deleted = omega arith

stopped-add : (item : NamespacedName) (q : DebouncedQueue) → (add item q).stopped ≡ q.stopped
unfolding add start_timer reset_timer
stopped-add item q = ground arith

calls-add : (item : NamespacedName) (q : DebouncedQueue) → (add item q).calls ≡ q.calls
unfolding add start_timer reset_timer
calls-add item q = ground arith

length-le-weight {κ} :
    {V : Type κ} (w : V → ℕ) → ((v : V) → 1 ≤ w v) → (m : Map ℕ V) → length m ≤ weight w m
length-le-weight w h [] = omega arith
length-le-weight w h ((k, v) ∷ m) = omega (arith, h v, length-le-weight w h m)

module _ (len : List WorkCall → ℕ) where
  stopped-advance_from :
      (g : ℕ) (item : NamespacedName) (phase : Phase) (q : DebouncedQueue)
      → (advance_from len g item phase q).stopped ≡ q.stopped
  unfolding advance_from update_queue_size_metric
  stopped-advance_from g item entered q = ground arith
  stopped-advance_from g item checked q = refl
  stopped-advance_from g item queued q = ground arith
  stopped-advance_from g item measured q = refl
  stopped-advance_from g item deleted q = refl

  stopped-Turn : {q r : DebouncedQueue} → Turn len q r → r.stopped ≡ q.stopped
  unfolding fire advance
  stopped-Turn {q} (fires id h) = ground arith
  stopped-Turn {q} (goes_on g h) = elim (Option-cases (Map.get g q.callbacks)) [
    | inl e ↦ rw (e, advance) refl
    | inr (cb, e) ↦ rw (e, advance) (stopped-advance_from g cb.item cb.phase q)
  ]

  calls-Turn :
      {q r : DebouncedQueue} (item : NamespacedName)
      → Turn len q r
      → IsCounted q
      → adds item q.calls ≤ adds item r.calls
  unfolding fire advance
  calls-Turn {q} item (fires id h) c = ground arith
  calls-Turn {q} item (goes_on g h) c = elim (Option-cases (Map.get g q.callbacks)) [
    | inl e ↦ rw (e, advance) (omega arith)
    | inr (cb, e) ↦ rw (e, advance) (calls-advance_from item q c len g cb.item cb.phase item)
  ]

  Turn-IsServed :
      {q r : DebouncedQueue} (item : NamespacedName)
      → Turn len q r
      → IsCounted q
      → q.stopped ≡ false
      → IsPending item q
      → IsServed item q r
  Turn-IsServed {q} item (fires id h) c s p = inl (fire-IsServed item q c id p)
  Turn-IsServed {q} item (goes_on g h) c s p = advance-IsServed item q c len g s p

  calls-Turns :
      {q r : DebouncedQueue} {n : ℕ} (item : NamespacedName)
      → Turns len q n r
      → IsCounted q
      → adds item q.calls ≤ adds item r.calls
  calls-Turns item none_yet c = omega arith
  calls-Turns item (and_then ts t) c =
      omega (arith, calls-Turns item ts c, calls-Turn item t (Turns-IsCounted len ts c))

  -- What a run keeps.
  Turns-IsServed :
      {q r : DebouncedQueue} {n : ℕ} (item : NamespacedName)
      → Turns len q n r
      → IsCounted q
      → q.stopped ≡ false
      → IsPending item q
      → (r.stopped ≡ false) × IsServed item q r
  Turns-IsServed item none_yet c s p = (s, inl p)
  Turns-IsServed item (and_then ts t) c s p =
      let (s', served) = Turns-IsServed item ts c s p in
      let c' = Turns-IsCounted len ts c in
      (
        stopped-Turn t ∙ s',
        elim served [
          | inl pending ↦ elim (Turn-IsServed item t c' s' pending) [
            | inl still ↦ inl still
            | inr more ↦ inr (omega (arith, more, calls-Turns item ts c))
          ]
          | inr more ↦ inr (omega (arith, more, calls-Turn item t c'))
        ],
      )

  IsPending-work : (item : NamespacedName) (q : DebouncedQueue) → IsPending item q → 1 ≤ work q
  unfolding work
  IsPending-work item q (waits id e) = ground (arith, weight_of-get whole id q.armed, e)
  IsPending-work item q (runs g phase b e) =
      ground (arith, weight_of-get left g q.callbacks, left_positive phase, e)

  pub stopped-Turns : {q r : DebouncedQueue} {n : ℕ} → Turns len q n r → r.stopped ≡ q.stopped
  stopped-Turns none_yet = refl
  stopped-Turns (and_then ts t) = stopped-Turn t ∙ stopped-Turns ts

  -- A queue with no work left has nothing to wait for.
  pub idle :
      (q : DebouncedQueue) → IsCounted q → q.stopped ≡ false → work q ≡ 0 → q.wait_group ≡ count 0
  unfolding work
  idle q c s h =
      c.is_count
      ∙ ap count (
          omega (
            arith,
            c.exact s,
            length-le-weight whole (λ _. omega arith) q.armed,
            length-le-weight left (λ cb. left_positive cb.phase) q.callbacks,
          ))

  -- After an item is added, every run of the timers and callbacks that leaves no work has given the
  -- item to the work queue once more than before, and WaitForUpdates returns; whatever the order of
  -- the run, if the queue is not shut down and no callback of the item was running.
  pub Turns-delivers :
      {r : DebouncedQueue} {n : ℕ} (item : NamespacedName) (q : DebouncedQueue)
      → IsCounted q
      → IsQuiet item q
      → q.stopped ≡ false
      → Turns len (add item q) n r
      → work r ≡ 0
      → (r.wait_group ≡ count 0) × (adds item q.calls < adds item r.calls)
  Turns-delivers {r} item q c quiet s ts h =
      let c' = IsCounted-add item q c quiet in
      let (s', served) =
        Turns-IsServed item ts c' (stopped-add item q ∙ s) (add-IsPending item q s) in
      (
        idle r (Turns-IsCounted len ts c') s' h,
        elim served [
          | inl pending ↦ absurd (omega (arith, IsPending-work item r pending, h))
          | inr more ↦ omega (arith, more, ap (adds item) (calls-add item q))
        ],
      )
