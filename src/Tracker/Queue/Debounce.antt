-- ===== src/Tracker/Queue/Debounce.antt =====
-- internal/tracker/debounced_queue.go: Adds that follow each other count once.
use model_validation_operato.Base.{
  ◌≡◌, ◌∙◌, refl, ap, ap₂, sym, ℕ, Bool, true, false, Option, none, some, inl, inr, Bool-cases,
  Option-cases, NamespacedName, key_eq, nat_eq,
}
use model_validation_operato.Base.Map
use model_validation_operato.Base.Map.{Map}
use model_validation_operato.Tracker.Queue.{
  DebouncedQueue, add, start_timer, reset_timer, shut_down,
}

reset-reset :
    (id : ℕ) (item : NamespacedName) (q : DebouncedQueue)
    → reset_timer id item (reset_timer id item q) ≡ reset_timer id item q
unfolding reset_timer
reset-reset id item q = ap (λ m. record q { armed = m }) (Map.put-put_same id item q.armed)

reset-start :
    (item : NamespacedName) (q : DebouncedQueue)
    → reset_timer q.next item (start_timer item q) ≡ start_timer item q
unfolding reset_timer start_timer
reset-start item q =
    ap (λ m. record (start_timer item q) { armed = m }) (Map.put-put_same q.next item q.armed)

-- `add` by what it reads.
abbrev pub add_by : NamespacedName → DebouncedQueue → Bool → Option ℕ → DebouncedQueue
add_by item q true o = q
add_by item q false (some id) = reset_timer id item q
add_by item q false none = start_timer item q

pub add_lem :
    (item : NamespacedName) (q : DebouncedQueue) (b : Bool) (o : Option ℕ)
    → q.stopped ≡ b
    → Map.get item q.timers ≡ o
    → add item q ≡ add_by item q b o
unfolding add
add_lem item q b o s e = read ∙ ap₂ (add_by item q) s e
  where
    go :
        (b : Bool) (o : Option ℕ)
        → ◌≡◌ {A = DebouncedQueue}
            (elim b [
              | true ↦ q
              | false ↦ elim o [ some id ↦ reset_timer id item q | none ↦ start_timer item q ]
            ])
            (add_by item q b o)
    go true o = refl
    go false none = refl
    go false (some id) = refl

    read : add item q ≡ add_by item q q.stopped (Map.get item q.timers)
    read = go q.stopped (Map.get item q.timers)

again_reset :
    (item : NamespacedName) (q : DebouncedQueue) (id : ℕ)
    → q.stopped ≡ false
    → Map.get item q.timers ≡ some id
    → add item (reset_timer id item q) ≡ reset_timer id item q
unfolding reset_timer
again_reset item q id s e =
    add_lem item (reset_timer id item q) false (some id) s e ∙ reset-reset id item q

again_start :
    (item : NamespacedName) (q : DebouncedQueue)
    → q.stopped ≡ false
    → add item (start_timer item q) ≡ start_timer item q
unfolding start_timer
again_start item q s =
    add_lem item (start_timer item q) false (some q.next) s (Map.get-put_same item q.next q.timers)
    ∙ reset-start item q

-- Adding an item that was just added changes nothing but the time at which its timer will fire: no
-- second timer is started and the wait group is not raised again, in every state of the queue.
pub add-add : (item : NamespacedName) (q : DebouncedQueue) → add item (add item q) ≡ add item q
add-add item q = elim (Bool-cases q.stopped) [
  | inl s ↦ ap (add item) (add_lem item q true (Map.get item q.timers) s refl)
  | inr s ↦ elim (Option-cases (Map.get item q.timers)) [
    | inr (id, e) ↦
        let once = add_lem item q false (some id) s e in
        ap (add item) once ∙ again_reset item q id s e ∙ sym once
    | inl e ↦
        let once = add_lem item q false none s e in
        ap (add item) once ∙ again_start item q s ∙ sym once
  ]
]

-- After the shutdown an Add changes nothing.
pub add-shut_down :
    (item : NamespacedName) (q : DebouncedQueue) → add item (shut_down q) ≡ shut_down q
unfolding add shut_down
add-shut_down item q = refl
