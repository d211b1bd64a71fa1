-- ===== src/Api/Hash.antt =====
-- api/v1alpha1/modelvalidation_types.go: the configuration hashes by which drift is detected. The
-- parameter `digest` gives the first 16 hexadecimal digits of the SHA-256 of a text.
pub mod Boundary
use model_validation_operato.Base.{String, ◌<>◌, Option, none, some, string_eq, if◌then◌else◌}
use model_validation_operato.Base.Map
use model_validation_operato.Base.Map.{Map}
use model_validation_operato.Api.{
  ValidationConfig, ModelValidation, ContinuousValidation, ResourceRequirements,
}

method_text : ValidationConfig → String
method_text cfg = elim cfg.sigstore_config [
  | some c ↦ "sigstore" <> (c.certificate_identity <> c.certificate_oidc_issuer)
  | none ↦ elim cfg.pki_config [
    | some c ↦ "pki" <> c.certificate_authority
    | none ↦ elim cfg.public_key_config [ some c ↦ "publickey" <> c.key_path | none ↦ "" ]
  ]
]

trust_text : ValidationConfig → String
trust_text cfg = elim cfg.client_trust_config [
  | some c ↦ "clienttrust" <> c.trust_config_path
  | none ↦ ""
]

-- The hasher has seen the texts of its writes one after the other.
unfoldable pub validation_config_text : ValidationConfig → String
unfolding method_text trust_text
validation_config_text cfg = method_text cfg <> trust_text cfg

continuous_text : Option ContinuousValidation → String
continuous_text none = ""
continuous_text (some c) =
    if c.enabled then "continuous-enabled" <> c.interval else "continuous-disabled"

quantity_text : String → String → Map String String → String
quantity_text prefix name quantities = elim (Map.get name quantities) [
  | some q ↦ prefix <> q
  | none ↦ ""
]

resources_text : Option ResourceRequirements → String
unfolding quantity_text
resources_text none = ""
resources_text (some r) =
    "resources"
    <> (quantity_text "req-cpu:" "cpu" r.requests
        <> (quantity_text "req-mem:" "memory" r.requests
            <> (quantity_text "lim-cpu:" "cpu" r.limits
                <> quantity_text "lim-mem:" "memory" r.limits)))

module _ (digest : String → String) where
  unfoldable pub validation_config_hash : ValidationConfig → String
  unfolding validation_config_text
  validation_config_hash cfg = digest (validation_config_text cfg)

  unfoldable pub get_config_hash : ModelValidation → String
  unfolding validation_config_hash continuous_text resources_text
  get_config_hash mv = digest (
      validation_config_hash mv.spec.config
      <> (mv.spec.image_pull_policy
          <> (continuous_text mv.spec.continuous_validation <> resources_text mv.spec.resources)))
