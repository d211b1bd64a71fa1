-- ===== src/Api.antt =====
-- api/v1alpha1: the custom resources ModelValidation and TelemetryConfig.
--
-- A pointer is an `Option`. A quantity of Kubernetes is kept as the text that its `String` method
-- gives, and a time as a number of seconds.
pub mod Method
pub mod Hash
use model_validation_operato.Base.{ℕ, String, Bool, Option, List}
use model_validation_operato.Base.Map.{Map}

pub record Model : Type 0 where
  pub path : String
  pub signature_path : String
  pub ignore_paths : List String
  pub ignore_git_paths : Option Bool
  pub ignore_unsigned_files : Option Bool
  pub allow_symlinks : Option Bool

pub record SigstoreConfig : Type 0 where
  pub certificate_identity : String
  pub certificate_oidc_issuer : String

pub record PkiConfig : Type 0 where
  pub certificate_authority : String

pub record PublicKeyConfig : Type 0 where
  pub key_path : String

pub record ClientTrustConfig : Type 0 where
  pub trust_config_path : String

pub record ValidationConfig : Type 0 where
  pub sigstore_config : Option SigstoreConfig
  pub pki_config : Option PkiConfig
  pub public_key_config : Option PublicKeyConfig
  pub client_trust_config : Option ClientTrustConfig

pub record ContinuousValidation : Type 0 where
  pub enabled : Bool
  pub interval : String

-- corev1.ResourceRequirements, with the two lists that the operator reads.
pub record ResourceRequirements : Type 0 where
  pub requests : Map String String
  pub limits : Map String String

pub record ModelValidationSpec : Type 0 where
  pub model : Model
  pub config : ValidationConfig
  pub image_pull_policy : String
  pub continuous_validation : Option ContinuousValidation
  pub resources : Option ResourceRequirements

pub record PodTrackingInfo : Type 0 where
  pub name : String
  pub uid : String
  pub injected_at : ℕ

-- metav1.Condition
pub record Condition : Type 0 where
  pub kind : String
  pub status : String
  pub observed_generation : ℕ
  pub last_transition_time : ℕ
  pub reason : String
  pub message : String

pub record ModelValidationStatus : Type 0 where
  pub conditions : List Condition
  pub injected_pod_count : ℕ
  pub uninjected_pod_count : ℕ
  pub orphaned_pod_count : ℕ
  pub auth_method : String
  pub injected_pods : List PodTrackingInfo
  pub uninjected_pods : List PodTrackingInfo
  pub orphaned_pods : List PodTrackingInfo
  pub last_updated : ℕ

pub record ModelValidation : Type 0 where
  pub name : String
  pub namespace : String
  pub labels : Map String String
  pub generation : ℕ
  pub deletion_timestamp : Option ℕ
  pub spec : ModelValidationSpec
  pub status : ModelValidationStatus

-- corev1.EnvVar, without the sources of a value.
pub record EnvVar : Type 0 where
  pub name : String
  pub value : String

pub record TracingConfig : Type 0 where
  pub enabled : Bool
  pub endpoint : String
  pub insecure : Option Bool
  pub sampler : String
  pub sampler_arg : String
  pub env : List EnvVar

-- metav1.LabelSelector. An expression is an opaque text: only their number is read here.
pub record LabelSelector : Type 0 where
  pub match_labels : Map String String
  pub match_expressions : List String

pub record TelemetryConfigStatus : Type 0 where
  pub matched_namespace_count : ℕ
  pub matched_model_validation_count : ℕ
  pub last_applied : ℕ
  pub conditions : List Condition

pub record TelemetryConfig : Type 0 where
  pub name : String
  pub namespace : String
  pub generation : ℕ
  pub deletion_timestamp : Option ℕ
  pub namespace_selector : Option LabelSelector
  pub selector : Option LabelSelector
  pub tracing : TracingConfig
  pub status : TelemetryConfigStatus
