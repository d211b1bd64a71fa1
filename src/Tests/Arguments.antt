-- ===== src/Tests/Arguments.antt =====
-- cmd/validation-agent and internal/validation on the line that the webhook writes.
use model_validation_operato.Base.{◌≡◌, refl, true, false, some, [], ◌∷◌, string_eq, nat_eq, negsuc}
use model_validation_operato.Validation.Parse.{parse_args}
use model_validation_operato.Validation.Verify.{Verifiers, Answer, answered, not_verified}
use model_validation_operato.Webhook.Args.{agent_args}
use model_validation_operato.Webhook.Args.RoundTrip.{parse_args-agent_args, agent_config}
use model_validation_operato.Agent.{run_validation, main, exited, validation_failed}
use model_validation_operato.Agent.Runs.{main_negative}
use model_validation_operato.Agent.Injected.{run_validation-agent_args}
use model_validation_operato.Tests.Samples.{model, config, differ}
use model_validation_operato.Base.Text.{strip_prefix}

-- Verifiers that all give one answer.
abbrev answer : Answer → Verifiers
answer a = record { sigstore = λ _. a; key = λ _. a; certificate = λ _. a }

abbrev good : Verifiers
good = answer (answered true "")

abbrev bad : Verifiers
bad = answer (answered false "tampered")

parse_args-agent_args_example : parse_args (agent_args config model) ≡ agent_config config model
unfolding strip_prefix nat_eq string_eq
parse_args-agent_args_example =
    parse_args-agent_args config model refl (differ "/data/model" "" refl)

run_validation-agent_args_example :
    run_validation bad (agent_args config model)
    ≡ some (validation_failed (not_verified "tampered"))
unfolding strip_prefix nat_eq string_eq
run_validation-agent_args_example =
    run_validation-agent_args bad config model refl (differ "/data/model" "" refl)

main_negative_example : main (negsuc 4) false ("verify" ∷ []) good [] ≡ (exited 0, false)
unfolding run_validation parse_args
main_negative_example = main_negative 4 false ("verify" ∷ []) good []
