-- ===== src/Webhook/Container.antt =====
-- internal/webhooks/pod_webhook.go: the containers that the webhook injects.
use model_validation_operato.Base.{
  String, ◌<>◌, Bool, true, false, ◌&&◌, Option, none, some, List, [], ◌∷◌, ◌==◌, string_eq,
  if◌then◌else◌,
}
use model_validation_operato.Base.Map
use model_validation_operato.Base.Map.{Map}
use model_validation_operato.Constants.{
  model_validation_init_container_name, model_validation_sidecar_container_name,
  model_validation_agent_image, continuous_validation_annotation_key,
}
use model_validation_operato.Api.{
  ModelValidation, ContinuousValidation, ResourceRequirements, TelemetryConfig,
}
use model_validation_operato.Kube.{Container, VolumeMount, Probe, SecurityContext}
use model_validation_operato.Webhook.Telemetry.{telemetry_env_vars}

abbrev pub restricted_security_context : SecurityContext
restricted_security_context = record {
  run_as_non_root = some true;
  read_only_root_filesystem = some true;
  allow_privilege_escalation = some false;
  seccomp_profile = "RuntimeDefault";
  drop_capabilities = "ALL" ∷ [];
}

abbrev is_enabled : Option ContinuousValidation → Bool
is_enabled none = false
is_enabled (some c) = c.enabled

abbrev pub continuous_enabled : ModelValidation → Bool
continuous_enabled mv = is_enabled mv.spec.continuous_validation

abbrev image_pull_policy : ModelValidation → String
image_pull_policy mv =
    if mv.spec.image_pull_policy == "" then "Always" else mv.spec.image_pull_policy

abbrev interval_or_default : Option ContinuousValidation → String
interval_or_default none = "5m"
interval_or_default (some c) = if c.interval == "" then "5m" else c.interval

abbrev pub interval : ModelValidation → String
interval mv = interval_or_default mv.spec.continuous_validation

abbrev default_resources : ResourceRequirements
default_resources = record {
  requests = ("cpu", "100m") ∷ ("memory", "128Mi") ∷ [];
  limits = ("cpu", "1") ∷ ("memory", "512Mi") ∷ [];
}

abbrev resources_or_default : Option ResourceRequirements → ResourceRequirements
resources_or_default none = default_resources
resources_or_default (some r) = r

abbrev readiness : Probe
readiness = record { path = "/ready"; port = 8080; initial_delay_seconds = 5; period_seconds = 10 }

abbrev liveness : Probe
liveness = record {
  path = "/healthz";
  port = 8080;
  initial_delay_seconds = 10;
  period_seconds = 30;
}

-- The annotation that `buildValidationContainer` writes on the pod that it is given.
unfoldable pub mark_continuous : ModelValidation → Map String String → Map String String
mark_continuous mv annotations =
    if continuous_enabled mv
    then Map.put continuous_validation_annotation_key "true" annotations
    else annotations

unfoldable pub build_validation_container :
    ModelValidation → List String → List VolumeMount → Option TelemetryConfig → Bool → Container
build_validation_container mv args vm tc native_sidecar_support =
    let native = continuous_enabled mv && native_sidecar_support in
    record {
      name = model_validation_init_container_name;
      image = model_validation_agent_image;
      image_pull_policy = image_pull_policy mv;
      command = "/usr/local/bin/validation-agent" ∷ [];
      args = if native then ("--interval=" <> interval mv) ∷ args else args;
      env = telemetry_env_vars tc;
      volume_mounts = vm;
      resources = resources_or_default mv.spec.resources;
      restart_policy = if native then some "Always" else none;
      readiness_probe = if native then some readiness else none;
      liveness_probe = if native then some liveness else none;
      security_context = some restricted_security_context;
    }

unfoldable pub build_legacy_sidecar_container :
    ModelValidation → List String → List VolumeMount → Container
build_legacy_sidecar_container mv args vm = record {
  name = model_validation_sidecar_container_name;
  image = model_validation_agent_image;
  image_pull_policy = image_pull_policy mv;
  command = "/usr/local/bin/validation-agent" ∷ [];
  args = ("--interval=" <> interval mv) ∷ "--skip-initial" ∷ args;
  env = [];
  volume_mounts = vm;
  resources = resources_or_default mv.spec.resources;
  restart_policy = none;
  readiness_probe = some readiness;
  liveness_probe = some liveness;
  security_context = some restricted_security_context;
}
