-- ===== src/Webhook/Args.antt =====
-- internal/webhooks/pod_webhook.go: the command line of the validation agent.
pub mod Options
pub mod RoundTrip
pub mod Method
use model_validation_operato.Base.{
  String, ◌<>◌, Bool, true, false, Option, none, some, List, [], ◌∷◌, ◌++◌,
}
use model_validation_operato.Api.{
  Model, ValidationConfig, SigstoreConfig, PublicKeyConfig, PkiConfig, ClientTrustConfig,
}

-- The method with its own flags; none if no method is configured.
unfoldable pub method_args :
    Option SigstoreConfig → Option PublicKeyConfig → Option PkiConfig → Model → Option (List String)
method_args (some c) _ _ model = some (
    "sigstore"
    ∷ ("--signature=" <> model.signature_path)
    ∷ "--identity"
    ∷ c.certificate_identity
    ∷ "--identity_provider"
    ∷ c.certificate_oidc_issuer
    ∷ [])
method_args none (some c) _ model =
    some ("key" ∷ ("--signature=" <> model.signature_path) ∷ "--public_key" ∷ c.key_path ∷ [])
method_args none none (some c) model = some (
    "certificate"
    ∷ ("--signature=" <> model.signature_path)
    ∷ "--certificate_chain"
    ∷ c.certificate_authority
    ∷ [])
method_args none none none model = none

unfoldable pub trust_args : Option ClientTrustConfig → List String
trust_args none = []
trust_args (some c) = "--trust_config" ∷ c.trust_config_path ∷ []

unfoldable pub ignore_path_args : List String → List String
ignore_path_args [] = []
ignore_path_args (path ∷ paths) = "--ignore-paths" ∷ path ∷ ignore_path_args paths

-- One of two flags for an optional setting.
abbrev pub either_flag : String → String → Option Bool → List String
either_flag yes_flag no_flag none = []
either_flag yes_flag no_flag (some true) = yes_flag ∷ []
either_flag yes_flag no_flag (some false) = no_flag ∷ []

unfoldable pub symlink_args : Option Bool → List String
symlink_args none = []
symlink_args (some true) = "--allow_symlinks" ∷ []
symlink_args (some false) = []

unfoldable pub option_args : ValidationConfig → Model → List String
unfolding trust_args ignore_path_args symlink_args
option_args cfg model =
    trust_args cfg.client_trust_config
    ++ (ignore_path_args model.ignore_paths
        ++ (either_flag "--ignore-git-paths" "--no-ignore-git-paths" model.ignore_git_paths
            ++ (either_flag "--ignore_unsigned_files" "--no-ignore_unsigned_files"
                  model.ignore_unsigned_files
                ++ symlink_args model.allow_symlinks)))

unfoldable pub validation_config_to_args : ValidationConfig → Model → List String
unfolding method_args option_args
validation_config_to_args cfg model =
    elim (method_args cfg.sigstore_config cfg.public_key_config cfg.pki_config model) [
      | some args ↦ args ++ option_args cfg model
      | none ↦ []
    ]

-- The arguments that `Handle` gives to the injected containers.
unfoldable pub agent_args : ValidationConfig → Model → List String
unfolding validation_config_to_args
agent_args cfg model = "verify" ∷ (validation_config_to_args cfg model ++ (model.path ∷ []))
