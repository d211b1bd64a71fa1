-- ===== src/Tests/Admission.antt =====
-- internal/webhooks at a concrete pod.
use model_validation_operato.Base.{
  ◌≡◌, ◌≢◌, refl, String, Bool, true, false, ◌&&◌, none, some, [], ◌∷◌, key_eq, string_eq, bool_eq,
  if◌then◌else◌, ◌==◌,
}
use model_validation_operato.Base.Map
use model_validation_operato.Base.Map.{Map}
use model_validation_operato.Api.{TelemetryConfig}
use model_validation_operato.Api.Hash.Boundary.{sigstore, validation_config_hash_boundary}
use model_validation_operato.Api.Hash.{validation_config_hash, get_config_hash}
use model_validation_operato.Kube.{found, not_found, Pod}
use model_validation_operato.Metrics.{injected}
use model_validation_operato.Tracker.Info.{new_model_validation_info, ModelValidationInfo}
use model_validation_operato.Tracker.State.{
  process_pod_event, new_status_tracker, add_model_validation,
}
use model_validation_operato.Webhook.Telemetry.{Matcher, find_matching_telemetry_config}
use model_validation_operato.Webhook.Telemetry.Winner.{
  find_matching_telemetry_config-IsBest, IsBest,
}
use model_validation_operato.Webhook.Handle.{
  Environment, Request, patched, handle, validation_exists,
}
use model_validation_operato.Webhook.Handle.Inject.{inject}
use model_validation_operato.Webhook.Handle.Results.{handle_guards, IsGuarded, extended}
use model_validation_operato.Webhook.Handle.Once.{handle_once}
use model_validation_operato.Webhook.Handle.Listed.{inject_listed}
use model_validation_operato.Tracker.Status.Listing.{listed_state}
use model_validation_operato.Tracker.Status.Written.{update, status_after}
use model_validation_operato.Tests.Samples.{
  mv, key, pod, ns, listed, listed-IsLawful, same_text, differ,
}
use model_validation_operato.Tests.Tracking.{tracked, tracked-IsConsistent}
use model_validation_operato.Api.Method.{auth_method}

abbrev labels_in : Map String String → Map String String → Bool
labels_in [] labels = true
labels_in ((k, v) ∷ rest) labels =
    elim (Map.get k labels) [ none ↦ false | some w ↦ v == w ] && labels_in rest labels

abbrev general : TelemetryConfig
general = record {
  name = "all";
  namespace = "monitoring";
  generation = 1;
  deletion_timestamp = none;
  namespace_selector = none;
  selector = none;
  tracing = record {
    enabled = true;
    endpoint = "http://otel:4317";
    insecure = some true;
    sampler = "";
    sampler_arg = "";
    env = [];
  };
  status = record {
    matched_namespace_count = 0;
    matched_model_validation_count = 0;
    last_applied = 0;
    conditions = [];
  };
}

abbrev tc : TelemetryConfig
tc = record general {
  name = "ml";
  namespace_selector = some (record { match_labels = ("team", "ml") ∷ []; match_expressions = [] });
}

-- A selector accepts what has all its labels; none is invalid.
abbrev by_labels : Matcher
by_labels sel = some (λ labels. labels_in sel.match_labels labels)

abbrev env : Environment
env = record {
  get_namespace = λ _. found ns;
  get_model_validation = λ k. if k == key then found mv else not_found;
  list_telemetry_configs = some (tc ∷ []);
  matches = by_labels;
  finalizers = listed;
  digest = same_text;
  now = "2025-01-01T00:00:00Z";
  native_sidecar_support = true;
  marshal_fails = λ _. false;
}

abbrev request : Request
request = record { namespace = "default"; object = some pod }

patches : handle env request ≡ patched (extended env pod ns mv)
unfolding handle Map.get string_eq key_eq validation_exists
patches = refl

handle_guards_example : IsGuarded env pod "demo" (handle env request)
unfolding Map.get string_eq
handle_guards_example =
    handle_guards env request pod ns "demo" refl refl refl refl (differ "demo" "" refl)

handle_once_example :
    handle env (record { namespace = "default"; object = some (extended env pod ns mv) })
    ≢ patched (extended env pod ns mv)
handle_once_example =
    handle_once env env request (extended env pod ns mv) patches "default" (extended env pod ns mv)

abbrev admitted : Pod
admitted = inject same_text by_labels listed "now" none true pod ns mv

abbrev info : ModelValidationInfo
info = new_model_validation_info "demo" (get_config_hash same_text mv) "public-key" 1

inject_listed_example :
    let seen = process_pod_event listed admitted tracked in
    ((update same_text (λ _. none) 9 key mv seen).error ≡ none)
    × (listed_state "u1" (status_after same_text (λ _. none) 9 key mv seen) ≡ injected)
unfolding add_model_validation Map.get string_eq new_status_tracker Map.put key_eq auth_method
    get_config_hash new_model_validation_info
inject_listed_example =
    inject_listed same_text by_labels listed listed-IsLawful "now" none true pod ns mv (λ _. none) 9
      info tracked tracked-IsConsistent refl (differ "demo" "" refl) refl refl refl (λ s. refl)

find_matching_telemetry_config-IsBest_example :
    IsBest by_labels ns mv
      (tc ∷ general ∷ [])
      (find_matching_telemetry_config by_labels (some (tc ∷ general ∷ [])) ns mv)
find_matching_telemetry_config-IsBest_example =
    find_matching_telemetry_config-IsBest by_labels ns mv (tc ∷ general ∷ [])

validation_config_hash_boundary_example :
    validation_config_hash same_text (sigstore "alice" "idp" none)
    ≡ validation_config_hash same_text (sigstore "ali" "ceidp" none)
validation_config_hash_boundary_example =
    validation_config_hash_boundary same_text "ali" "ce" "idp" none
