-- ===== src/Tracker/Queue/Quiet.antt =====
-- internal/tracker/debounced_queue.go: runs in which no Add finds the entry of a timer whose
-- callback is running.
use model_validation_operato.Base.{
  ◌≡◌, ◌≢◌, ◌≤◌, subst, ℕ, none, some, List, [], ◌∷◌, ◌++◌, arith, length, inl, inr, Bool-cases,
  Option-cases, NamespacedName, key_eq, nat_eq,
}
use model_validation_operato.Base.Map
use model_validation_operato.Base.Map.{Map}
use model_validation_operato.Tracker.Queue.{
  DebouncedQueue, Phase, entered, checked, queued, measured, deleted, WorkCall, work_add,
  new_debounced_queue, add, fire, advance, advance_from, shut_down, stop_timers,
  update_queue_size_metric,
}
use model_validation_operato.Tracker.Queue.Counting.{
  IsCounted, IsCounted-new, IsCounted-start_timer, IsCounted-reset_timer, IsCounted-fire,
  IsCounted-move, IsCounted-finish, IsCounted-other, IsCounted-update_queue_size_metric,
}

-- The timer that the queue has for the item, if it has one, is still armed.
abbrev pub IsQuiet : NamespacedName → DebouncedQueue → Type 0
IsQuiet item q = elim (Map.get item q.timers) [
  | none ↦ Unit {0}
  | some id ↦ Map.get id q.armed ≢ none
]

pub IsCounted-add :
    (item : NamespacedName) (q : DebouncedQueue)
    → IsCounted q
    → IsQuiet item q
    → IsCounted (add item q)
unfolding add
IsCounted-add item q c quiet = elim (Bool-cases q.stopped) [
  | inl e ↦ rw (e, add) c
  | inr e ↦ elim (Option-cases (Map.get item q.timers)) [
    | inl f ↦ rw (e, add, f) (IsCounted-start_timer item q c)
    | inr (id, f) ↦
        rw (e, add, f)
          (IsCounted-reset_timer id item q c
            (subst (λ o. elim o [ none ↦ Unit {0} | some id ↦ Map.get id q.armed ≢ none ]) f quiet))
  ]
]

-- Stopping timers only takes armed ones away.
record IsLess (armed armed' : Map ℕ NamespacedName) : Type 0 where
  pub shorter : length armed' ≤ length armed
  pub nodup : Map.NodupKeys armed → Map.NodupKeys armed'
  pub absent : (k : ℕ) → Map.get k armed ≡ none → Map.get k armed' ≡ none

length-delete-le : (k : ℕ) (m : Map ℕ NamespacedName) → length (Map.delete k m) ≤ length m
unfolding Map.delete
length-delete-le k [] = omega arith
length-delete-le k ((j, v) ∷ m) = ground (arith, length-delete-le k m)

stop_timers-IsLess :
    (ids : List ℕ) (armed : Map ℕ NamespacedName) → IsLess armed (stop_timers ids armed)
unfolding stop_timers
stop_timers-IsLess [] armed = record { shorter = omega arith; nodup = λ u. u; absent = λ k h. h }
stop_timers-IsLess (id ∷ ids) armed =
    let rest = stop_timers-IsLess ids (Map.delete id armed) in
    record {
      shorter = omega (arith, rest.shorter, length-delete-le id armed);
      nodup = λ u. rest.nodup (Map.delete-NodupKeys id armed u);
      absent = λ k h. rest.absent k (ground (arith, Map.get-delete k id armed));
    }

IsCounted-shut_down : (q : DebouncedQueue) → IsCounted q → IsCounted (shut_down q)
unfolding shut_down
IsCounted-shut_down q c =
    let less = stop_timers-IsLess (Map.values q.timers) q.armed in
    record {
      waiting = c.waiting;
      is_count = c.is_count;
      enough = omega (arith, c.enough, less.shorter);
      exact = λ h. absurd (ground arith);
      armed_nodup = less.nodup c.armed_nodup;
      callbacks_nodup = c.callbacks_nodup;
      armed_fresh = λ k h. less.absent k (c.armed_fresh k h);
      callbacks_fresh = c.callbacks_fresh;
    }

module _ (len : List WorkCall → ℕ) where
  pub callbacks-update_queue_size_metric :
      (q : DebouncedQueue) → (update_queue_size_metric len q).callbacks ≡ q.callbacks
  unfolding update_queue_size_metric
  callbacks-update_queue_size_metric q = ground arith

  IsCounted-advance_from :
      (g : ℕ) (item : NamespacedName) (phase : Phase) (q : DebouncedQueue)
      → IsCounted q
      → Map.get g q.callbacks ≢ none
      → IsCounted (advance_from len g item phase q)
  unfolding advance_from
  IsCounted-advance_from g item entered q c h = elim (Bool-cases q.stopped) [
    | inl e ↦ rw (e, advance_from) (IsCounted-finish g item q c h)
    | inr e ↦ rw (e, advance_from) (IsCounted-move g item q c h checked)
  ]
  IsCounted-advance_from g item checked q c h =
      IsCounted-move g item (record q { calls = q.calls ++ (work_add item ∷ []) })
        (IsCounted-other q q.timers (q.calls ++ (work_add item ∷ [])) q.sizes c) h queued
  IsCounted-advance_from g item queued q c h =
      IsCounted-move g item (update_queue_size_metric len q)
        (IsCounted-update_queue_size_metric len q c) (rw (callbacks-update_queue_size_metric q) h)
        measured
  IsCounted-advance_from g item measured q c h =
      IsCounted-move g item (record q { timers = Map.delete item q.timers })
        (IsCounted-other q (Map.delete item q.timers) q.calls q.sizes c) h deleted
  IsCounted-advance_from g item deleted q c h = IsCounted-finish g item q c h

  pub IsCounted-advance : (g : ℕ) (q : DebouncedQueue) → IsCounted q → IsCounted (advance len g q)
  unfolding advance
  IsCounted-advance g q c = elim (Option-cases (Map.get g q.callbacks)) [
    | inl e ↦ rw (e, advance) c
    | inr (cb, e) ↦ rw (e, advance) (IsCounted-advance_from g cb.item cb.phase q c (λ n. cc))
  ]

  pub data Step (q : DebouncedQueue) : DebouncedQueue → Type 0 where
    added : (item : NamespacedName) → IsQuiet item q → Step q (add item q)
    fired : (id : ℕ) → Step q (fire id q)
    advanced : (g : ℕ) → Step q (advance len g q)
    shut : Step q (shut_down q)

  pub data Reach : DebouncedQueue → Type 0 where
    start : Reach new_debounced_queue
    next : {q q' : DebouncedQueue} → Reach q → Step q q' → Reach q'

  Step-IsCounted : {q q' : DebouncedQueue} → Step q q' → IsCounted q → IsCounted q'
  Step-IsCounted {q} (added item quiet) c = IsCounted-add item q c quiet
  Step-IsCounted {q} (fired id) c = IsCounted-fire id q c
  Step-IsCounted {q} (advanced g) c = IsCounted-advance g q c
  Step-IsCounted {q} shut c = IsCounted-shut_down q c

  -- As long as no Add finds the entry of a timer whose callback is running, in every order of calls,
  -- timers and callbacks the wait group never panics, its counter is at least the number of armed
  -- timers and running callbacks, and exactly this number until the queue is shut down.
  pub Reach-IsCounted : {q : DebouncedQueue} → Reach q → IsCounted q
  Reach-IsCounted start = IsCounted-new
  Reach-IsCounted (next r s) = Step-IsCounted s (Reach-IsCounted r)
