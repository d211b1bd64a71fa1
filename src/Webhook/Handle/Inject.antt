-- ===== src/Webhook/Handle/Inject.antt =====
-- internal/webhooks/pod_webhook.go: what `Handle` makes of a pod that it extends.
use model_validation_operato.Base.{
  String, Bool, true, false, not, ◌&&◌, Option, none, some, List, [], ◌∷◌, ◌++◌, if◌then◌else◌,
  string_eq,
}
use model_validation_operato.Base.Map
use model_validation_operato.Base.Map.{Map}
use model_validation_operato.Constants.{
  model_validation_finalizer, injected_annotation_key, auth_method_annotation_key,
  config_hash_annotation_key,
}
use model_validation_operato.Api.{Model, ModelValidation, TelemetryConfig}
use model_validation_operato.Api.Method.{get_auth_method}
use model_validation_operato.Api.Hash.{get_config_hash}
use model_validation_operato.Kube.{Pod, Namespace, VolumeMount, Finalizers}
use model_validation_operato.Webhook.Args.{agent_args}
use model_validation_operato.Webhook.Annotations.{merge_model_with_annotations}
use model_validation_operato.Webhook.Mounts.{collect_needed_paths, filter_volume_mounts}
use model_validation_operato.Webhook.Telemetry.{Matcher, find_matching_telemetry_config}
use model_validation_operato.Webhook.Container.{
  continuous_enabled, mark_continuous, build_validation_container, build_legacy_sidecar_container,
}

abbrev pub uses_sigstore : ModelValidation → Bool
uses_sigstore mv = elim mv.spec.config.sigstore_config [ none ↦ false | some _ ↦ true ]

abbrev pub merged_model : Pod → ModelValidation → Model
merged_model pod mv = merge_model_with_annotations mv.spec.model pod.annotations

abbrev pub merged_args : Pod → ModelValidation → List String
merged_args pod mv = agent_args mv.spec.config (merged_model pod mv)

-- The mounts of the injected containers.
unfoldable pub agent_mounts : Pod → ModelValidation → List VolumeMount
agent_mounts pod mv =
    filter_volume_mounts pod.containers (collect_needed_paths (merged_model pod mv) mv.spec.config)
    ++ (if uses_sigstore mv
        then record { name = "sigstore-tuf-cache"; mount_path = "/.sigstore"; read_only = false }
          ∷ []
        else [])

abbrev pub uses_legacy_sidecar : Bool → ModelValidation → Bool
uses_legacy_sidecar native mv = continuous_enabled mv && not native

-- The three annotations, in the order in which they are written.
unfoldable pub annotate :
    (String → String) → String → ModelValidation → Map String String → Map String String
annotate digest now mv annotations =
    Map.put config_hash_annotation_key (get_config_hash digest mv) (
      Map.put auth_method_annotation_key (get_auth_method mv)
        (Map.put injected_annotation_key now annotations))

module _ (digest : String → String) (matches : Matcher) (F : Finalizers) (now : String)
    (listed : Option (List TelemetryConfig)) (native : Bool) where
  unfoldable pub inject : Pod → Namespace → ModelValidation → Pod
  unfolding annotate agent_mounts
  inject pod ns mv =
      let args = merged_args pod mv in
      let vm = agent_mounts pod mv in
      let tc = find_matching_telemetry_config matches listed ns mv in
      record pod {
        finalizers = F.add model_validation_finalizer pod.finalizers;
        annotations = mark_continuous mv (annotate digest now mv pod.annotations);
        volumes =
            pod.volumes
            ++ (if uses_sigstore mv
                then record { name = "sigstore-tuf-cache"; empty_dir_size = some "10Mi" } ∷ []
                else []);
        init_containers =
            pod.init_containers ++ (build_validation_container mv args vm tc native ∷ []);
        containers =
            pod.containers
            ++ (if uses_legacy_sidecar native mv
                then build_legacy_sidecar_container mv args vm ∷ []
                else []);
      }
