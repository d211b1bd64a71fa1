-- ===== src/Webhook/Args/Method.antt =====
-- api/v1alpha1/modelvalidation_types.go with internal/webhooks/pod_webhook.go: the method that the
-- operator reports and the method that it makes the agent use.
use model_validation_operato.Base.{
  ◌≡◌, refl, String, Option, none, some, List, [], ◌∷◌, arith, ◌==◌, string_eq, if◌then◌else◌,
}
use model_validation_operato.Api.{
  Model, ValidationConfig, SigstoreConfig, PublicKeyConfig, PkiConfig, ClientTrustConfig,
}
use model_validation_operato.Api.Method.{auth_method, HasOneMethod}
use model_validation_operato.Webhook.Args.{method_args}

-- The subcommand of the agent for a reported method.
abbrev pub subcommand : String → String
subcommand name =
    if name == "pki" then "certificate" else if name == "public-key" then "key" else name

abbrev pub first : Option (List String) → String
first none = ""
first (some []) = ""
first (some (a ∷ _)) = a

abbrev configured :
    Option SigstoreConfig
    → Option PublicKeyConfig
    → Option PkiConfig
    → Option ClientTrustConfig
    → ValidationConfig
configured s k p t = record {
  sigstore_config = s;
  pki_config = p;
  public_key_config = k;
  client_trust_config = t;
}

by_method :
    (s : Option SigstoreConfig) (k : Option PublicKeyConfig) (p : Option PkiConfig)
    (t : Option ClientTrustConfig) (model : Model)
    → HasOneMethod (configured s k p t)
    → first (method_args s k p model) ≡ subcommand (auth_method (configured s k p t))
unfolding method_args auth_method string_eq
by_method (some s) k p t model h = refl
by_method none (some k) none t model h = refl
by_method none (some k) (some p) t model h = absurd (ground (arith, h))
by_method none none (some p) t model h = refl
by_method none none none t model h = absurd h

-- For a configuration with exactly one method, the agent is started with the subcommand of the
-- method that the operator reports in the status and in the pod's annotation.
pub auth_method-method_args :
    (cfg : ValidationConfig) (model : Model)
    → HasOneMethod cfg
    → first (method_args cfg.sigstore_config cfg.public_key_config cfg.pki_config model)
      ≡ subcommand (auth_method cfg)
auth_method-method_args cfg model h =
    by_method cfg.sigstore_config cfg.public_key_config cfg.pki_config cfg.client_trust_config model
      h

-- A configuration with both a certificate and a key, which the API server's rule keeps out: the
-- operator reports the one and the agent is started for the other.
two_methods :
    (ca key : String) (trust : Option ClientTrustConfig) (model : Model)
    → let cfg : ValidationConfig = record {
      sigstore_config = none;
      pki_config = some (record { certificate_authority = ca });
      public_key_config = some (record { key_path = key });
      client_trust_config = trust;
    } in
      (first (method_args cfg.sigstore_config cfg.public_key_config cfg.pki_config model) ≡ "key")
      × (auth_method cfg ≡ "pki")
unfolding method_args auth_method
two_methods ca key trust model = (refl, refl)
