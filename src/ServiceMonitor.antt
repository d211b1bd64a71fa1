-- ===== src/ServiceMonitor.antt =====
-- internal/servicemonitor/servicemonitor.go: the Prometheus ServiceMonitor that the operator makes
-- for its own metrics.
pub mod Runs
use model_validation_operato.Base.{
  String, Bool, true, false, ◌||◌, Option, none, some, List, [], ◌∷◌, any, ◌==◌, string_eq,
  if◌then◌else◌, NamespacedName,
}
use model_validation_operato.Base.Map.{Map}
use model_validation_operato.Kube.{Upsert}

pub record Options : Type 0 where
  pub namespace : String
  pub service_name : String
  pub port_name : String
  pub path : String
  pub secure : Bool

-- The value of POD_NAMESPACE, and the content of the file of the service account, none if it cannot
-- be read.
unfoldable pub detect_namespace : String → Option String → String
detect_namespace pod_namespace file =
    if pod_namespace == ""
    then (elim file [ some content ↦ content | none ↦ "model-validation-operator-system" ])
    else pod_namespace

-- The options that the creator keeps.
unfoldable pub new_creator : String → Option String → Options → Options
unfolding detect_namespace
new_creator pod_namespace file opts = record opts {
  namespace = if opts.namespace == "" then detect_namespace pod_namespace file else opts.namespace;
  path = if opts.path == "" then "/metrics" else opts.path;
  port_name = if opts.port_name == "" then "https" else opts.port_name;
}

pub record Endpoint : Type 0 where
  pub path : String
  pub port : String
  pub scheme : String
  pub bearer_token_file : String
  pub insecure_skip_verify : Bool

pub record ServiceMonitor : Type 0 where
  pub name : String
  pub namespace : String
  pub labels : Map String String
  pub endpoints : List Endpoint
  pub match_labels : Map String String

-- What the discovery client says: it cannot be made, the group is not served, or the kinds of the
-- group.
pub data Discovery : Type 0 where
  no_client no_group : Discovery
  kinds : List String → Discovery

-- `none` is the error.
unfoldable pub is_service_monitor_crd_available : Discovery → Option Bool
is_service_monitor_crd_available no_client = none
is_service_monitor_crd_available no_group = some false
is_service_monitor_crd_available (kinds names) = some (any (λ k. k == "ServiceMonitor") names)

abbrev pub monitor_labels : Map String String
monitor_labels =
    ("control-plane", "controller-manager")
    ∷ ("app.kubernetes.io/name", "model-validation-operator")
    ∷ ("app.kubernetes.io/managed-by", "operator")
    ∷ []

abbrev pub build_service_monitor : Options → ServiceMonitor
build_service_monitor opts = record {
  name = "controller-manager-metrics-monitor";
  namespace = opts.namespace;
  labels = monitor_labels;
  endpoints = [];
  match_labels = [];
}

abbrev pub endpoint : Options → Endpoint
endpoint opts = record {
  path = opts.path;
  port = opts.port_name;
  scheme = if opts.secure then "https" else "http";
  bearer_token_file = "/var/run/secrets/kubernetes.io/serviceaccount/token";
  insecure_skip_verify = true;
}

unfoldable pub apply_spec : Options → ServiceMonitor → ServiceMonitor
apply_spec opts sm = record sm {
  labels = monitor_labels;
  endpoints = endpoint opts ∷ [];
  match_labels =
      ("control-plane", "controller-manager")
      ∷ ("app.kubernetes.io/name", "model-validation-operator")
      ∷ [];
}

abbrev pub monitor_key : ServiceMonitor → NamespacedName
monitor_key sm = record { namespace = sm.namespace; name = sm.name }

-- `Start` returns, with an error or without one, or it waits for the end of its context.
pub data Started : Type 0 where
  returned : Option String → Started
  waits : Started

unfoldable pub start :
    {Store : Type 0} → Upsert ServiceMonitor Store → Discovery → Options → Store → Started × Store
unfolding is_service_monitor_crd_available
start U discovery opts store = elim (is_service_monitor_crd_available discovery) [
  | none ↦ (returned none, store)
  | some false ↦ (returned none, store)
  | some true ↦
      let sm = build_service_monitor opts in
      let (error, store') = U.create_or_update (monitor_key sm) (apply_spec opts) sm store in
      elim error [ some e ↦ (returned none, store') | none ↦ (waits, store') ]
]
