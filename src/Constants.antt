-- ===== src/Constants.antt =====
-- internal/constants: the labels, annotations and names by which the operator marks pods.
use model_validation_operato.Base.{String}

abbrev pub model_validation_label : String
model_validation_label = "validation.ml.sigstore.dev/ml"

abbrev pub ignore_namespace_label : String
ignore_namespace_label = "validation.ml.sigstore.dev/ignore"

abbrev pub model_validation_finalizer : String
model_validation_finalizer = "validation.ml.sigstore.dev/finalizer"

abbrev pub injected_annotation_key : String
injected_annotation_key = "validation.ml.sigstore.dev/injected-at"

abbrev pub auth_method_annotation_key : String
auth_method_annotation_key = "validation.ml.sigstore.dev/auth-method"

abbrev pub config_hash_annotation_key : String
config_hash_annotation_key = "validation.ml.sigstore.dev/config-hash"

abbrev pub ignore_paths_annotation_key : String
ignore_paths_annotation_key = "validation.ml.sigstore.dev/ignore-paths"

abbrev pub ignore_git_paths_annotation_key : String
ignore_git_paths_annotation_key = "validation.ml.sigstore.dev/ignore-git-paths"

abbrev pub ignore_unsigned_files_annotation_key : String
ignore_unsigned_files_annotation_key = "validation.ml.sigstore.dev/ignore-unsigned-files"

abbrev pub allow_symlinks_annotation_key : String
allow_symlinks_annotation_key = "validation.ml.sigstore.dev/allow-symlinks"

abbrev pub continuous_validation_annotation_key : String
continuous_validation_annotation_key = "validation.ml.sigstore.dev/continuous-validation"

abbrev pub ignore_namespace_value : String
ignore_namespace_value = "true"

abbrev pub model_validation_init_container_name : String
model_validation_init_container_name = "model-validation"

abbrev pub model_validation_sidecar_container_name : String
model_validation_sidecar_container_name = "model-validation-sidecar"

abbrev pub model_validation_agent_image : String
model_validation_agent_image = "ghcr.io/sigstore/model-validation-agent:v0.1.0"
