-- ===== src/Agent/Injected.antt =====
-- From the resource to the verifier: what the injected agent asks of the model-signing library.
use model_validation_operato.Base.{
  ◌≡◌, ◌≢◌, refl, Option, none, some, [], ◌∷◌, arith, ◌==◌, string_eq, if◌then◌else◌,
}
use model_validation_operato.Base.Text.{strip_prefix}
use model_validation_operato.Api.{
  Model, ValidationConfig, SigstoreConfig, PublicKeyConfig, PkiConfig,
}
use model_validation_operato.Validation.Parse.{too_few_arguments, Result, ok, err, Config}
use model_validation_operato.Validation.Verify.{
  Verifiers, Answer, judge, or_false, CommonOptions, validate,
}
use model_validation_operato.Webhook.Args.{agent_args}
use model_validation_operato.Webhook.Args.RoundTrip.{parse_args-agent_args, method_config, meant}
use model_validation_operato.Webhook.Args.Options.{trust_path}
use model_validation_operato.Agent.{RunError, parse_failed, validation_failed, run_validation}

module _ (V : Verifiers) (cfg : ValidationConfig) (model : Model) where
  abbrev pub asked_common : CommonOptions
  asked_common = record {
    model_path = model.path;
    signature_path = model.signature_path;
    ignore_paths = model.ignore_paths;
    ignore_git_paths = or_false model.ignore_git_paths;
    ignore_unsigned_files = or_false model.ignore_unsigned_files;
    allow_symlinks = or_false model.allow_symlinks;
  }

  -- The question that the configuration means, and the library's answer.
  abbrev pub ask : Option SigstoreConfig → Option PublicKeyConfig → Option PkiConfig → Option Answer
  ask (some c) _ _ = some (
      V.sigstore (record {
        common = asked_common;
        identity = c.certificate_identity;
        identity_provider = c.certificate_oidc_issuer;
        trust_config_path = trust_path cfg.client_trust_config;
      }))
  ask none (some c) _ =
      some (V.key (record { common = asked_common; public_key_path = c.key_path }))
  ask none none (some c) = some (
      V.certificate (record {
        common = asked_common;
        certificate_chain =
            if c.certificate_authority == "" then [] else c.certificate_authority ∷ [];
      }))
  ask none none none = none

  -- The agent's error for an answer, or for no question.
  abbrev pub report : Option Answer → Option RunError
  report none = some (parse_failed too_few_arguments)
  report (some a) = elim (judge a) [ some e ↦ some (validation_failed e) | none ↦ none ]

  abbrev run : Result Config → Option RunError
  run (err e) = some (parse_failed e)
  run (ok c) = elim (validate V c) [ some e ↦ some (validation_failed e) | none ↦ none ]

  run-meant :
      (s : Option SigstoreConfig) (k : Option PublicKeyConfig) (p : Option PkiConfig)
      → run (meant cfg model (method_config s k p model)) ≡ report (ask s k p)
  unfolding validate string_eq
  run-meant (some s) k p = ground arith
  run-meant none (some k) p = ground arith
  run-meant none none (some p) = ground arith
  run-meant none none none = refl

  -- Started with the arguments that the webhook makes of a configuration and a model, the agent
  -- asks the verifier of the configured method about the model's path, its signature and its
  -- options, and succeeds exactly if the answer is that the model is verified; this holds if the
  -- path is not empty and does not begin with a dash.
  pub run_validation-agent_args :
      strip_prefix "-" model.path ≡ none
      → model.path ≢ ""
      → run_validation V (agent_args cfg model)
        ≡ report (ask cfg.sigstore_config cfg.public_key_config cfg.pki_config)
  unfolding run_validation
  run_validation-agent_args h ne =
      rw (parse_args-agent_args cfg model h ne, run_validation)
        (run-meant cfg.sigstore_config cfg.public_key_config cfg.pki_config)
