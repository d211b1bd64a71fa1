-- ===== src/Agent/Runs.antt =====
-- cmd/validation-agent/main.go: how a run of the agent ends, and when it is ready.
use model_validation_operato.Base.{
  ◌≡◌, ◌<◌, refl, ℕ, String, Bool, true, false, none, some, List, [], ◌∷◌, arith, ◌||◌, nat_eq,
  if◌then◌else◌, pos, negsuc,
}
use model_validation_operato.Validation.Verify.{Verifiers}
use model_validation_operato.Agent.{
  run_validation, Event, tick, terminated, exited, waiting, validation_loop, main,
}

abbrev pub succeeds : List String → Verifiers → Bool
succeeds args V = elim (run_validation V args) [ none ↦ true | some _ ↦ false ]

-- A validation that succeeds before the agent is terminated.
abbrev pub some_success : List String → List Event → Bool
some_success args [] = false
some_success args (terminated ∷ events) = false
some_success args (tick V ∷ events) = succeeds args V || some_success args events

ready-validation_loop :
    (args : List String) (events : List Event) (ready : Bool)
    → (validation_loop args events ready).1 ≡ (ready || some_success args events)
unfolding validation_loop
ready-validation_loop args [] ready = ground arith
ready-validation_loop args (terminated ∷ events) ready = ground arith
ready-validation_loop args (tick V ∷ events) ready =
    ground (arith, ready-validation_loop args events ready, ready-validation_loop args events true)

-- Has the agent been told to stop?
abbrev pub is_terminated : List Event → Bool
is_terminated [] = false
is_terminated (terminated ∷ events) = true
is_terminated (tick V ∷ events) = is_terminated events

ending-validation_loop :
    (args : List String) (events : List Event) (ready : Bool)
    → (validation_loop args events ready).0 ≡ (if is_terminated events then exited 0 else waiting)
unfolding validation_loop
ending-validation_loop args [] ready = refl
ending-validation_loop args (terminated ∷ events) ready = refl
ending-validation_loop args (tick V ∷ events) ready =
    ending-validation_loop args events
      (elim (run_validation V args) [ some _ ↦ ready | none ↦ true ])

-- A one-shot agent exits with 0 and ready if its initial validation succeeds or is skipped, and
-- with 1 and not ready if it fails; it waits for nothing.
pub main_one_shot :
    (skip : Bool) (args : List String) (V : Verifiers) (events : List Event)
    → main (pos 0) skip args V events
      ≡ (if skip || succeeds args V then (exited 0, true) else (exited 1, false))
unfolding main
main_one_shot skip args V events = ground arith

-- A continuous agent runs until it is terminated, and then exits with 0, whatever its validations
-- give; and it is ready exactly when its initial validation was skipped or succeeded or a later one
-- succeeded before it was terminated: a failure never takes readiness away.
pub main_continuous :
    (interval : ℕ) (skip : Bool) (args : List String) (V : Verifiers) (events : List Event)
    → 0 < interval
    → ((main (pos interval) skip args V events).0
        ≡ (if is_terminated events then exited 0 else waiting))
      × ((main (pos interval) skip args V events).1
          ≡ (skip || (succeeds args V || some_success args events)))
unfolding main
main_continuous interval skip args V events h = ground (
  arith,
  ending-validation_loop args events true,
  ending-validation_loop args events false,
  ready-validation_loop args events true,
  ready-validation_loop args events false,
)

-- With an interval below zero the agent exits with 0 at once, even if its initial validation
-- failed: it is ready exactly if the validation was skipped or succeeded.
pub main_negative :
    (n : ℕ) (skip : Bool) (args : List String) (V : Verifiers) (events : List Event)
    → main (negsuc n) skip args V events ≡ (exited 0, skip || succeeds args V)
unfolding main
main_negative n skip args V events = ground arith
