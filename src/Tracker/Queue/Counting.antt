-- ===== src/Tracker/Queue/Counting.antt =====
-- internal/tracker/debounced_queue.go: the wait group counts what is still to run, as long as no
-- Add finds the entry of a timer whose callback is running.
use model_validation_operato.Base.{
  ◌≡◌, ◌≢◌, ◌≤◌, refl, ap, ℕ, zero, suc, ◌+◌, ◌-◌, false, none, List, [], ◌∷◌, ◌++◌, arith, length,
  inl, inr, Bool-cases, Option-cases, NamespacedName, key_eq, nat_eq,
}
use model_validation_operato.Base.Map
use model_validation_operato.Base.Map.{Map}
use model_validation_operato.Tracker.Queue.{
  DebouncedQueue, count, Callback, Phase, entered, WorkCall, new_debounced_queue, move, finish,
  wait_done, start_timer, reset_timer, fire, update_queue_size_metric,
}

-- The wait group counts the armed timers and the running callbacks, and after a shutdown perhaps
-- timers that were stopped; every number in use is below the next one.
pub record IsCounted (q : DebouncedQueue) : Type 0 where
  pub waiting : ℕ
  pub is_count : q.wait_group ≡ count waiting
  pub enough : length q.armed + length q.callbacks ≤ waiting
  pub exact : q.stopped ≡ false → waiting ≡ length q.armed + length q.callbacks
  pub armed_nodup : Map.NodupKeys q.armed
  pub callbacks_nodup : Map.NodupKeys q.callbacks
  pub armed_fresh : (k : ℕ) → q.next ≤ k → Map.get k q.armed ≡ none
  pub callbacks_fresh : (k : ℕ) → q.next ≤ k → Map.get k q.callbacks ≡ none

pub IsCounted-new : IsCounted new_debounced_queue
unfolding new_debounced_queue Map.get
IsCounted-new = record {
  waiting = 0;
  is_count = refl;
  enough = omega arith;
  exact = λ _. refl;
  armed_nodup = tt;
  callbacks_nodup = tt;
  armed_fresh = λ k h. refl;
  callbacks_fresh = λ k h. refl;
}

pub IsCounted-start_timer :
    (item : NamespacedName) (q : DebouncedQueue) → IsCounted q → IsCounted (start_timer item q)
unfolding start_timer
IsCounted-start_timer item q c = record {
  waiting = c.waiting + 1;
  is_count = rw c.is_count refl;
  enough = omega (
    arith,
    c.enough,
    Map.length-put_new q.next item q.armed (c.armed_fresh q.next (omega arith)),
  );
  exact = λ h. omega (
    arith,
    c.exact h,
    Map.length-put_new q.next item q.armed (c.armed_fresh q.next (omega arith)),
  );
  armed_nodup = Map.put-NodupKeys q.next item q.armed c.armed_nodup;
  callbacks_nodup = c.callbacks_nodup;
  armed_fresh =
      λ k h. ground (arith, Map.get-put k q.next item q.armed, c.armed_fresh k (omega arith));
  callbacks_fresh = λ k h. c.callbacks_fresh k (omega arith);
}

pub IsCounted-reset_timer :
    (id : ℕ) (item : NamespacedName) (q : DebouncedQueue)
    → IsCounted q
    → Map.get id q.armed ≢ none
    → IsCounted (reset_timer id item q)
unfolding reset_timer
IsCounted-reset_timer id item q c h = record {
  waiting = c.waiting;
  is_count = c.is_count;
  enough = omega (arith, c.enough, Map.length-put_old id item q.armed h);
  exact = λ s. omega (arith, c.exact s, Map.length-put_old id item q.armed h);
  armed_nodup = Map.put-NodupKeys id item q.armed c.armed_nodup;
  callbacks_nodup = c.callbacks_nodup;
  armed_fresh = λ k l. ground (arith, Map.get-put k id item q.armed, c.armed_fresh k l);
  callbacks_fresh = c.callbacks_fresh;
}

pub IsCounted-fire : (id : ℕ) (q : DebouncedQueue) → IsCounted q → IsCounted (fire id q)
unfolding fire
IsCounted-fire id q c = elim (Option-cases (Map.get id q.armed)) [
  | inl e ↦ rw (e, fire) c
  | inr (item, e) ↦
      let more =
        Map.length-put_new q.next (record { item = item; phase = entered }) q.callbacks
          (c.callbacks_fresh q.next (omega arith)) in
      let less = Map.length-delete id q.armed c.armed_nodup (λ n. cc) in
      rw (e, fire)
        (record {
          waiting = c.waiting;
          is_count = c.is_count;
          enough = omega (arith, c.enough, more, less);
          exact = λ s. omega (arith, c.exact s, more, less);
          armed_nodup = Map.delete-NodupKeys id q.armed c.armed_nodup;
          callbacks_nodup =
              Map.put-NodupKeys q.next (record { item = item; phase = entered }) q.callbacks
                c.callbacks_nodup;
          armed_fresh =
              λ k l. ground (arith, Map.get-delete k id q.armed, c.armed_fresh k (omega arith));
          callbacks_fresh = λ k l. ground (
            arith,
            Map.get-put k q.next (record { item = item; phase = entered }) q.callbacks,
            c.callbacks_fresh k (omega arith),
          );
        })
]

counted_down : (n : ℕ) → 1 ≤ n → wait_done (count n) ≡ count (n - 1)
counted_down zero h = absurd (omega arith)
counted_down (suc n) h = ap count (omega arith)

module _ (g : ℕ) (item : NamespacedName) (q : DebouncedQueue) (c : IsCounted q)
    (running : Map.get g q.callbacks ≢ none) where
  pub IsCounted-move : (phase : Phase) → IsCounted (move g item phase q)
  IsCounted-move phase =
      let cb : Callback = record { item = item; phase = phase } in
      let same = Map.length-put_old g cb q.callbacks running in
      record {
        waiting = c.waiting;
        is_count = c.is_count;
        enough = omega (arith, c.enough, same);
        exact = λ s. omega (arith, c.exact s, same);
        armed_nodup = c.armed_nodup;
        callbacks_nodup = Map.put-NodupKeys g cb q.callbacks c.callbacks_nodup;
        armed_fresh = c.armed_fresh;
        callbacks_fresh =
            λ k l. ground (arith, Map.get-put k g cb q.callbacks, c.callbacks_fresh k l);
      }

  pub IsCounted-finish : IsCounted (finish g q)
  IsCounted-finish =
      let less = Map.length-delete g q.callbacks c.callbacks_nodup running in
      record {
        waiting = c.waiting - 1;
        is_count = rw c.is_count (counted_down c.waiting (omega (arith, c.enough, less)));
        enough = omega (arith, c.enough, less);
        exact = λ s. omega (arith, c.exact s, less);
        armed_nodup = c.armed_nodup;
        callbacks_nodup = Map.delete-NodupKeys g q.callbacks c.callbacks_nodup;
        armed_fresh = c.armed_fresh;
        callbacks_fresh =
            λ k l. ground (arith, Map.get-delete k g q.callbacks, c.callbacks_fresh k l);
      }

-- The fields that the invariant does not read.
pub IsCounted-other :
    (q : DebouncedQueue) (timers : Map NamespacedName ℕ) (calls : List WorkCall) (sizes : List ℕ)
    → IsCounted q
    → IsCounted (record q { timers = timers; calls = calls; sizes = sizes })
IsCounted-other q timers calls sizes c = record {
  waiting = c.waiting;
  is_count = c.is_count;
  enough = c.enough;
  exact = c.exact;
  armed_nodup = c.armed_nodup;
  callbacks_nodup = c.callbacks_nodup;
  armed_fresh = c.armed_fresh;
  callbacks_fresh = c.callbacks_fresh;
}

module _ (len : List WorkCall → ℕ) where
  pub IsCounted-update_queue_size_metric :
      (q : DebouncedQueue) → IsCounted q → IsCounted (update_queue_size_metric len q)
  unfolding update_queue_size_metric
  IsCounted-update_queue_size_metric q c = elim (Bool-cases q.stopped) [
    | inl e ↦ rw (e, update_queue_size_metric) c
    | inr e ↦
        rw (e, update_queue_size_metric)
          (IsCounted-other q q.timers q.calls (q.sizes ++ (len q.calls ∷ [])) c)
  ]
