-- ===== src/Api/Method.antt =====
-- api/v1alpha1/modelvalidation_types.go: which authentication method a configuration names.
use model_validation_operato.Base.{◌≡◌, String, none, some}
use model_validation_operato.Api.{ValidationConfig, ModelValidation}

unfoldable pub auth_method : ValidationConfig → String
auth_method cfg = elim cfg.sigstore_config [
  | some _ ↦ "sigstore"
  | none ↦ elim cfg.pki_config [
    | some _ ↦ "pki"
    | none ↦ elim cfg.public_key_config [ some _ ↦ "public-key" | none ↦ "unknown" ]
  ]
]

abbrev pub get_auth_method : ModelValidation → String
get_auth_method mv = auth_method mv.spec.config

-- The rule that the resource definition sets for a stored configuration: exactly one method.
abbrev pub HasOneMethod : ValidationConfig → Type 0
HasOneMethod cfg = elim cfg.sigstore_config [
  | some _ ↦ (cfg.pki_config ≡ none) × (cfg.public_key_config ≡ none)
  | none ↦ elim cfg.pki_config [
    | some _ ↦ cfg.public_key_config ≡ none
    | none ↦ elim cfg.public_key_config [ some _ ↦ Unit {0} | none ↦ ⊥ ]
  ]
]
