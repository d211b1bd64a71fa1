-- ===== src/Agent/Traces.antt =====
-- cmd/validation-agent/main.go: the tracing of the agent.
use model_validation_operato.Base.{
  ◌≡◌, refl, zero, suc, String, Bool, true, false, ◌||◌, List, [], ◌∷◌, pos, string_eq, inl, inr,
  Bool-cases,
}
use model_validation_operato.Validation.Verify.{Verifiers}
use model_validation_operato.Tracing.{Options, with_service_name}
use model_validation_operato.Agent.{Event, Ending, exited, waiting, main}
use model_validation_operato.Agent.Runs.{succeeds, main_one_shot}

-- The options with which `main` sets up tracing.
abbrev pub tracing_options : {Sampler : Type 0} → List (Options Sampler → Options Sampler)
tracing_options = with_service_name "validation-agent" ∷ []

-- Has the deferred shutdown of the tracing run, which exports the pending spans? os.Exit, which ends
-- a failed one-shot run, skips it.
abbrev pub is_flushed : Ending → Bool
is_flushed (exited zero) = true
is_flushed (exited (suc n)) = false
is_flushed waiting = false

-- A one-shot agent exports its spans exactly if its validation is skipped or succeeds: the span of
-- a failed one is lost.
pub main_flushes :
    (skip : Bool) (args : List String) (V : Verifiers) (events : List Event)
    → is_flushed (main (pos 0) skip args V events).0 ≡ (skip || succeeds args V)
main_flushes skip args V events = elim (Bool-cases (skip || succeeds args V)) [
  | inl e ↦ rw (main_one_shot skip args V events, e) refl
  | inr e ↦ rw (main_one_shot skip args V events, e) refl
]
