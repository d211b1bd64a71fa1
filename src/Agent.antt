-- ===== src/Agent.antt =====
-- cmd/validation-agent/main.go: the validation agent, on the arguments behind its own flags.
pub mod Runs
pub mod Injected
pub mod Health
pub mod Traces
use model_validation_operato.Base.{
  ℕ, String, Bool, true, false, Option, none, some, List, [], ◌∷◌, ltb, ◌==◌, nat_eq, if◌then◌else◌,
  ℤ, is_zero, is_positive,
}
use model_validation_operato.Validation.Parse.{Result, ok, err, ParseError, parse_args}
use model_validation_operato.Validation.Verify.{Verifiers, ValidateError, validate}

pub data RunError : Type 0 where
  parse_failed : ParseError → RunError
  validation_failed : ValidateError → RunError

unfoldable pub run_validation : Verifiers → List String → Option RunError
run_validation V args = elim (parse_args args) [
  | err e ↦ some (parse_failed e)
  | ok cfg ↦ elim (validate V cfg) [ some e ↦ some (validation_failed e) | none ↦ none ]
]

-- What the agent waits for in its loop: the ticker, with what the verifiers answer then, or the
-- end of its context.
pub data Event : Type 0 where
  tick : Verifiers → Event
  terminated : Event

-- How `main` ends: it exits with a status, or it still waits after the events that came.
pub data Ending : Type 0 where
  exited : ℕ → Ending
  waiting : Ending

-- The ending, and the value of `ready` then.
abbrev pub RunState : Type 0
RunState = Ending × Bool

unfoldable pub validation_loop : List String → List Event → Bool → RunState
validation_loop args [] ready = (waiting, ready)
validation_loop args (terminated ∷ events) ready = (exited 0, ready)
validation_loop args (tick V ∷ events) ready =
    validation_loop args events (elim (run_validation V args) [ some _ ↦ ready | none ↦ true ])

-- What `main` does behind its initial validation.
after_initial : ℤ → List String → List Event → Bool → RunState
unfolding validation_loop
after_initial interval args events ready =
    if is_positive interval then validation_loop args events ready else (exited 0, ready)

-- `V` is what the verifiers answer at the start.
unfoldable pub main : ℤ → Bool → List String → Verifiers → List Event → RunState
unfolding after_initial
main interval skip_initial args V events =
    if skip_initial
    then after_initial interval args events true
    else (elim (run_validation V args) [
      | none ↦ after_initial interval args events true
      | some _ ↦
          if is_zero interval then (exited 1, false) else after_initial interval args events false
    ])

-- The status of the endpoint /ready.
abbrev pub ready_status : Bool → ℕ
ready_status true = 200
ready_status false = 503
