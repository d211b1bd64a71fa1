-- ===== src/Api/Hash/Boundary.antt =====
-- api/v1alpha1/modelvalidation_types.go: the hash sees no boundary between the fields.
use model_validation_operato.Base.{◌≡◌, ap, String, ◌<>◌, Option, none, some}
use model_validation_operato.Api.{ValidationConfig, ClientTrustConfig}
use model_validation_operato.Api.Hash.{trust_text, validation_config_hash}
use text.Mathlib.TextLemmas.{append_assoc}

abbrev pub sigstore : String → String → Option ClientTrustConfig → ValidationConfig
sigstore identity issuer trust = record {
  sigstore_config =
      some (record { certificate_identity = identity; certificate_oidc_issuer = issuer });
  pki_config = none;
  public_key_config = none;
  client_trust_config = trust;
}

-- Text that moves from the end of the identity to the front of the issuer leaves the hash as it
-- is, for every digest.
pub validation_config_hash_boundary :
    (digest : String → String) (s t u : String) (trust : Option ClientTrustConfig)
    → validation_config_hash digest (sigstore (s <> t) u trust)
      ≡ validation_config_hash digest (sigstore s (t <> u) trust)
unfolding validation_config_hash trust_text
validation_config_hash_boundary digest s t u trust =
    ap (λ v. digest (("sigstore" <> v) <> trust_text (sigstore s u trust))) (append_assoc s t u)
