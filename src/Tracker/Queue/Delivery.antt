-- ===== src/Tracker/Queue/Delivery.antt =====
-- internal/tracker/debounced_queue.go: an item that is added reaches the work queue.
use model_validation_operato.Base.{
  ◌≡◌, ◌≤◌, ◌<◌, ◌∙◌, ◌⊎◌, refl, ap, ℕ, ◌+◌, Bool, true, false, some, List, [], ◌∷◌, ◌++◌, arith,
  inl, inr, Bool-cases, Option-cases, NamespacedName, key_eq, nat_eq, ◌==◌, if◌then◌else◌,
}
use model_validation_operato.Base.Map
use model_validation_operato.Base.Map.{Map}
use model_validation_operato.Tracker.Queue.{
  DebouncedQueue, Phase, entered, checked, queued, measured, deleted, WorkCall, work_add,
  work_add_rate_limited, work_forget, work_done, work_get, work_shut_down, add, start_timer,
  reset_timer, fire, advance, advance_from, update_queue_size_metric,
}
use model_validation_operato.Tracker.Queue.Counting.{IsCounted}
use model_validation_operato.Tracker.Queue.Quiet.{callbacks-update_queue_size_metric}
use model_validation_operato.Tracker.Queue.Work.{}

-- How often the work queue was given the item by a callback.
unfoldable pub adds : NamespacedName → List WorkCall → ℕ
adds item [] = 0
adds item (work_add j ∷ calls) = let rest = adds item calls in if item == j then 1 + rest else rest
adds item (work_add_rate_limited _ ∷ calls) = adds item calls
adds item (work_forget _ ∷ calls) = adds item calls
adds item (work_done _ ∷ calls) = adds item calls
adds item (work_get ∷ calls) = adds item calls
adds item (work_shut_down ∷ calls) = adds item calls

adds-append :
    (item : NamespacedName) (xs ys : List WorkCall)
    → adds item (xs ++ ys) ≡ adds item xs + adds item ys
unfolding adds
adds-append item [] ys = omega arith
adds-append item (work_add j ∷ xs) ys = ground (arith, adds-append item xs ys)
adds-append item (work_add_rate_limited j ∷ xs) ys = adds-append item xs ys
adds-append item (work_forget j ∷ xs) ys = adds-append item xs ys
adds-append item (work_done j ∷ xs) ys = adds-append item xs ys
adds-append item (work_get ∷ xs) ys = adds-append item xs ys
adds-append item (work_shut_down ∷ xs) ys = adds-append item xs ys

adds_one : (item : NamespacedName) → adds item (work_add item ∷ []) ≡ 1
unfolding adds
adds_one item = ground arith

abbrev is_before_add : Phase → Bool
is_before_add entered = true
is_before_add checked = true
is_before_add queued = false
is_before_add measured = false
is_before_add deleted = false

-- A timer of the item is armed, or a callback of it is on its way to the work queue.
pub data IsPending (item : NamespacedName) (q : DebouncedQueue) : Type 0 where
  waits : (id : ℕ) → Map.get id q.armed ≡ some item → IsPending item q
  runs :
      (g : ℕ) (phase : Phase)
      → is_before_add phase ≡ true
      → Map.get g q.callbacks ≡ some (record { item = item; phase = phase })
      → IsPending item q

-- After a step the item is still pending, or the work queue was given it.
abbrev pub IsServed : NamespacedName → DebouncedQueue → DebouncedQueue → Type 0
IsServed item q r = IsPending item r ⊎ (adds item q.calls < adds item r.calls)

pub add-IsPending :
    (item : NamespacedName) (q : DebouncedQueue) → q.stopped ≡ false → IsPending item (add item q)
unfolding add start_timer reset_timer
add-IsPending item q s = elim (Option-cases (Map.get item q.timers)) [
  | inl e ↦ rw (s, add, e) (waits q.next (Map.get-put_same q.next item q.armed))
  | inr (id, e) ↦ rw (s, add, e) (waits id (Map.get-put_same id item q.armed))
]

module _ (item : NamespacedName) (q : DebouncedQueue) (c : IsCounted q) where
  pub fire-IsServed : (id : ℕ) (p : IsPending item q) → IsPending item (fire id q)
  unfolding fire
  fire-IsServed id (waits k e) = elim (Option-cases (Map.get id q.armed)) [
    | inl n ↦ rw (n, fire) (waits k e)
    | inr (it, f) ↦ elim (Bool-cases (k == id)) [
      | inl same ↦
          let right : it ≡ item = ground arith in
          rw (f, fire)
            (runs q.next entered refl (
              Map.get-put_same q.next (record { item = it; phase = entered }) q.callbacks
              ∙ ap (λ i. some (record { item = i; phase = entered })) right))
      | inr other ↦ rw (f, fire) (waits k (ground (arith, Map.get-delete k id q.armed)))
    ]
  ]
  fire-IsServed id (runs g phase b e) = elim (Option-cases (Map.get id q.armed)) [
    | inl n ↦ rw (n, fire) (runs g phase b e)
    | inr (it, f) ↦
        rw (f, fire)
          (runs g phase b (
            ground (
              arith,
              Map.get-put g q.next (record { item = it; phase = entered }) q.callbacks,
              c.callbacks_fresh q.next (omega arith),
            )))
  ]

  module _ (len : List WorkCall → ℕ) (g : ℕ) where
    armed-advance_from :
        (it : NamespacedName) (phase : Phase) → (advance_from len g it phase q).armed ≡ q.armed
    unfolding advance_from update_queue_size_metric
    armed-advance_from it entered = ground arith
    armed-advance_from it checked = refl
    armed-advance_from it queued = ground arith
    armed-advance_from it measured = refl
    armed-advance_from it deleted = refl

    get-advance_from :
        (j : ℕ) (it : NamespacedName) (phase : Phase)
        → (j == g) ≡ false
        → Map.get j (advance_from len g it phase q).callbacks ≡ Map.get j q.callbacks
    unfolding advance_from
    get-advance_from j it entered h = ground (
      arith,
      Map.get-put j g (record { item = it; phase = checked }) q.callbacks,
      Map.get-delete j g q.callbacks,
    )
    get-advance_from j it checked h =
        Map.get-put_other j g (record { item = it; phase = queued }) q.callbacks h
    get-advance_from j it queued h =
        Map.get-put_other j g (record { item = it; phase = measured })
          (update_queue_size_metric len q).callbacks h
        ∙ ap (Map.get j) (callbacks-update_queue_size_metric len q)
    get-advance_from j it measured h =
        Map.get-put_other j g (record { item = it; phase = deleted }) q.callbacks h
    get-advance_from j it deleted h = ground (arith, Map.get-delete j g q.callbacks)

    pub calls-advance_from :
        (it : NamespacedName) (phase : Phase) (k : NamespacedName)
        → adds k q.calls ≤ adds k (advance_from len g it phase q).calls
    unfolding advance_from update_queue_size_metric
    calls-advance_from it entered k = ground arith
    calls-advance_from it checked k = omega (arith, adds-append k q.calls (work_add it ∷ []))
    calls-advance_from it queued k = ground arith
    calls-advance_from it measured k = omega arith
    calls-advance_from it deleted k = omega arith

    -- The callback that is on its way itself.
    own-IsServed :
        (phase : Phase)
        → q.stopped ≡ false
        → is_before_add phase ≡ true
        → IsServed item q (advance_from len g item phase q)
    unfolding advance_from
    own-IsServed entered s b =
        rw (s, advance_from)
          (inl (
            runs g checked refl
              (Map.get-put_same g (record { item = item; phase = checked }) q.callbacks)))
    own-IsServed checked s b =
        inr (omega (arith, adds-append item q.calls (work_add item ∷ []), adds_one item))
    own-IsServed queued s b = absurd (ground arith)
    own-IsServed measured s b = absurd (ground arith)
    own-IsServed deleted s b = absurd (ground arith)

    pub advance-IsServed : q.stopped ≡ false → IsPending item q → IsServed item q (advance len g q)
    unfolding advance
    advance-IsServed s (waits id e) = elim (Option-cases (Map.get g q.callbacks)) [
      | inl n ↦ rw (n, advance) (inl (waits id e))
      | inr (cb, n) ↦ rw (n, advance) (inl (waits id (rw (armed-advance_from cb.item cb.phase) e)))
    ]
    advance-IsServed s (runs j phase b e) = elim (Bool-cases (j == g)) [
      | inl same ↦
          let at : Map.get g q.callbacks ≡ some (record { item = item; phase = phase }) =
            ground arith in
          rw (at, advance) (own-IsServed phase s b)
      | inr other ↦ elim (Option-cases (Map.get g q.callbacks)) [
        | inl n ↦ rw (n, advance) (inl (runs j phase b e))
        | inr (cb, n) ↦
            rw (n, advance) (inl (runs j phase b (get-advance_from j cb.item cb.phase other ∙ e)))
      ]
    ]
