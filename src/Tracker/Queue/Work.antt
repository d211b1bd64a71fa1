-- ===== src/Tracker/Queue/Work.antt =====
-- internal/tracker/debounced_queue.go: without further Adds the timers and callbacks come to an end.
use model_validation_operato.Base.{
  ◌≡◌, ◌≢◌, ◌≤◌, ℕ, suc, ◌+◌, none, some, List, arith, inl, inr, Bool-cases, Option-cases,
  NamespacedName, key_eq, nat_eq,
}
use model_validation_operato.Base.Map
use model_validation_operato.Base.Map.{Map}
use model_validation_operato.Base.Weights.{weight, weight-put, weight-delete}
use model_validation_operato.Tracker.Queue.{
  DebouncedQueue, Callback, Phase, entered, checked, queued, measured, deleted, WorkCall, fire,
  move, finish, advance, advance_from, update_queue_size_metric,
}
use model_validation_operato.Tracker.Queue.Counting.{IsCounted, IsCounted-fire}
use model_validation_operato.Tracker.Queue.Quiet.{
  IsCounted-advance, callbacks-update_queue_size_metric,
}

abbrev pub left_in : Phase → ℕ
left_in entered = 5
left_in checked = 4
left_in queued = 3
left_in measured = 2
left_in deleted = 1

abbrev pub left : Callback → ℕ
left c = left_in c.phase

abbrev pub whole : NamespacedName → ℕ
whole item = 6

-- The steps that are left: six of every armed timer, and those of the running callbacks.
unfoldable pub work : DebouncedQueue → ℕ
work q = weight whole q.armed + weight left q.callbacks

work-fire :
    (id : ℕ) (item : NamespacedName) (q : DebouncedQueue)
    → IsCounted q
    → Map.get id q.armed ≡ some item
    → work (fire id q) + 1 ≡ work q
unfolding work fire
work-fire id item q c e =
    let cb : Callback = record { item = item; phase = entered } in
    rw (e, fire)
      (ground (
        arith,
        weight-put left q.next cb q.callbacks,
        c.callbacks_fresh q.next (omega arith),
        weight-delete whole id q.armed c.armed_nodup,
        e,
      ))

module _ (g : ℕ) (item : NamespacedName) (phase : Phase) (q : DebouncedQueue)
    (e : Map.get g q.callbacks ≡ some (record { item = item; phase = phase })) where
  work-move : (to : Phase) → work (move g item to q) + left_in phase ≡ work q + left_in to
  unfolding work
  work-move to =
      ground (arith, weight-put left g (record { item = item; phase = to }) q.callbacks, e)

  work-finish : IsCounted q → work (finish g q) + left_in phase ≡ work q
  unfolding work
  work-finish c = ground (arith, weight-delete left g q.callbacks c.callbacks_nodup, e)

module _ (len : List WorkCall → ℕ) where
  work-update_queue_size_metric :
      (q : DebouncedQueue) → work (update_queue_size_metric len q) ≡ work q
  unfolding work update_queue_size_metric
  work-update_queue_size_metric q = ground arith

  work-advance_from :
      (g : ℕ) (item : NamespacedName) (phase : Phase) (q : DebouncedQueue)
      → IsCounted q
      → Map.get g q.callbacks ≡ some (record { item = item; phase = phase })
      → work (advance_from len g item phase q) + 1 ≤ work q
  unfolding advance_from work
  work-advance_from g item entered q c e = elim (Bool-cases q.stopped) [
    | inl s ↦ rw (s, advance_from) (omega (arith, work-finish g item entered q e c))
    | inr s ↦ rw (s, advance_from) (omega (arith, work-move g item entered q e checked))
  ]
  work-advance_from g item checked q c e = omega (arith, work-move g item checked q e queued)
  work-advance_from g item queued q c e = omega (
    arith,
    work-move g item queued (update_queue_size_metric len q)
        (rw (callbacks-update_queue_size_metric len q) e) measured,
    work-update_queue_size_metric q,
  )
  work-advance_from g item measured q c e = omega (arith, work-move g item measured q e deleted)
  work-advance_from g item deleted q c e = omega (arith, work-finish g item deleted q e c)

  -- A step of an armed timer or of a running callback.
  pub data Turn (q : DebouncedQueue) : DebouncedQueue → Type 0 where
    fires : (id : ℕ) → Map.get id q.armed ≢ none → Turn q (fire id q)
    goes_on : (g : ℕ) → Map.get g q.callbacks ≢ none → Turn q (advance len g q)

  -- A number of such steps, in any order.
  pub data Turns (q : DebouncedQueue) : ℕ → DebouncedQueue → Type 0 where
    none_yet : Turns q 0 q
    and_then : {n : ℕ} {r s : DebouncedQueue} → Turns q n r → Turn r s → Turns q (suc n) s

  Turn-IsCounted : {q r : DebouncedQueue} → Turn q r → IsCounted q → IsCounted r
  Turn-IsCounted {q} (fires id h) c = IsCounted-fire id q c
  Turn-IsCounted {q} (goes_on g h) c = IsCounted-advance len g q c

  pub Turns-IsCounted : {q r : DebouncedQueue} {n : ℕ} → Turns q n r → IsCounted q → IsCounted r
  Turns-IsCounted none_yet c = c
  Turns-IsCounted (and_then ts t) c = Turn-IsCounted t (Turns-IsCounted ts c)

  pub Turn-work : {q r : DebouncedQueue} → Turn q r → IsCounted q → work r + 1 ≤ work q
  unfolding advance
  Turn-work {q} (fires id h) c = elim (Option-cases (Map.get id q.armed)) [
    | inl e ↦ absurd (h e)
    | inr (item, e) ↦ omega (arith, work-fire id item q c e)
  ]
  Turn-work {q} (goes_on g h) c = elim (Option-cases (Map.get g q.callbacks)) [
    | inl e ↦ absurd (h e)
    | inr (cb, e) ↦ rw (e, advance) (work-advance_from g cb.item cb.phase q c e)
  ]

  -- Whatever order the timers and callbacks take, they run for at most as many steps as `work`
  -- counts.
  pub Turns-work : {q r : DebouncedQueue} {n : ℕ} → Turns q n r → IsCounted q → n + work r ≤ work q
  Turns-work none_yet c = omega arith
  Turns-work (and_then ts t) c = omega (arith, Turns-work ts c, Turn-work t (Turns-IsCounted ts c))
