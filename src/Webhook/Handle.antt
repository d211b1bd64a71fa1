-- ===== src/Webhook/Handle.antt =====
-- internal/webhooks/pod_webhook.go: the admission handler.
pub mod Inject
pub mod Results
pub mod Once
pub mod Tracked
pub mod Listed
use model_validation_operato.Base.{
  ℕ, String, Bool, true, false, not, ◌&&◌, ◌||◌, Option, none, some, List, [], ◌∷◌, ◌++◌, any, ◌==◌,
  string_eq, if◌then◌else◌, NamespacedName,
}
use model_validation_operato.Base.Map
use model_validation_operato.Base.Map.{Map}
use model_validation_operato.Constants.{
  model_validation_label, ignore_namespace_label, ignore_namespace_value,
  model_validation_init_container_name, model_validation_sidecar_container_name,
}
use model_validation_operato.Api.{ModelValidation, TelemetryConfig}
use model_validation_operato.Kube.{
  Pod, Namespace, Container, Fetch, found, not_found, failed, Finalizers,
}
use model_validation_operato.Webhook.Telemetry.{Matcher}
use model_validation_operato.Webhook.Handle.Inject.{inject}

-- The request. A pod that cannot be decoded is `none`.
pub record Request : Type 0 where
  pub namespace : String
  pub object : Option Pod

-- `allowed` and `errored` are admission.Allowed and admission.Errored. `patched pod` is
-- admission.PatchResponseFromRaw: the changes that turn the object of the request into the pod.
pub data Response : Type 0 where
  allowed : String → Response
  errored : ℕ → Response
  patched : Pod → Response

-- What the handler reads besides the request: the API server, the clock, whether the cluster
-- supports native sidecars, and whether json.Marshal fails on the pod.
pub record Environment : Type 0 where
  pub get_namespace : String → Fetch Namespace
  pub get_model_validation : NamespacedName → Fetch ModelValidation
  pub list_telemetry_configs : Option (List TelemetryConfig)
  pub matches : Matcher
  pub finalizers : Finalizers
  pub digest : String → String
  pub now : String
  pub native_sidecar_support : Bool
  pub marshal_fails : Pod → Bool

abbrev pub is_ignored : Namespace → Bool
is_ignored ns = elim (Map.get ignore_namespace_label ns.labels) [
  | none ↦ false
  | some v ↦ v == ignore_namespace_value
]

abbrev pub has_name : String → Container → Bool
has_name name c = c.name == name

-- The two loops that look for a container which is there already.
unfoldable pub validation_exists : Pod → Bool
validation_exists pod =
    any (has_name model_validation_init_container_name) pod.init_containers
    || any (has_name model_validation_sidecar_container_name) pod.containers

module _ (env : Environment) where
  -- The handler from the point where the resource is known.
  unfoldable pub handle_with : Pod → Namespace → ModelValidation → Response
  handle_with pod ns mv =
      let pp =
        inject env.digest env.matches env.finalizers env.now env.list_telemetry_configs
          env.native_sidecar_support pod ns mv in
      if validation_exists pod
      then allowed "validation exists, no action needed"
      else if env.marshal_fails pp
      then errored 500
      else patched pp

  -- What follows the lookup of the resource.
  abbrev pub with_resource : Pod → Namespace → Fetch ModelValidation → Response
  with_resource pod ns (found mv) = handle_with pod ns mv
  with_resource pod ns not_found = errored 400
  with_resource pod ns (failed _) = errored 400

  unfoldable pub handle_labelled : Pod → Namespace → String → Response
  unfolding handle_with
  handle_labelled pod ns name =
      if name == ""
      then allowed "no ModelValidation label found, no action needed"
      else with_resource pod ns
          (env.get_model_validation (record { namespace = pod.namespace; name = name }))

  unfoldable pub handle_pod : Pod → Namespace → Response
  unfolding handle_labelled
  handle_pod pod ns =
      if is_ignored ns
      then allowed "namespace ignored"
      else elim (Map.get model_validation_label pod.labels) [
        | none ↦ allowed "no ModelValidation label found, no action needed"
        | some name ↦ handle_labelled pod ns name
      ]

  -- What follows the lookup of the namespace.
  abbrev pub with_namespace : Pod → Fetch Namespace → Response
  with_namespace pod (found ns) = handle_pod pod ns
  with_namespace pod not_found = errored 500
  with_namespace pod (failed _) = errored 500

  unfoldable pub handle : Request → Response
  unfolding handle_pod
  handle req = elim req.object [
    | none ↦ errored 400
    | some pod ↦ with_namespace pod (env.get_namespace req.namespace)
  ]

-- The label `result` of the metric that the handler records on every path.
unfoldable pub webhook_result : Response → String
webhook_result (allowed _) = "skipped"
webhook_result (errored _) = "error"
webhook_result (patched _) = "success"
