-- ===== src/Operator.antt =====
-- cmd/main.go: what the operator does at its start, as a plan of actions that the flags and the
-- environment choose, and the run of this plan.
pub mod Environment
pub mod Steps
pub mod Plan
pub mod Safe
pub mod Starts
use model_validation_operato.Base.{
  ℕ, String, Bool, true, false, Option, none, some, List, [], ◌∷◌, ◌++◌, not, ◌==◌, ◌!=◌, string_eq,
  if◌then◌else◌,
}
use model_validation_operato.ServiceMonitor.{Options}
use model_validation_operato.Webhook.Version.{native_sidecar_support}
use model_validation_operato.Constants.{model_validation_agent_image}
use model_validation_operato.Operator.Steps.{
  TlsOption, disable_http2, get_certificate, ManagerOptions, Action, set_up_otel_metrics,
  get_config, watch_certificates, new_manager, add_certificate_watcher, add_service_monitor,
  add_healthz_check, add_readyz_check, register_webhook, new_status_tracker, set_up_pods,
  set_up_model_validations, set_up_telemetry_configs, new_client, install_network_policy,
  start_manager, stop_tracker, shut_down_otel, Step, must, just, Run, run_plan,
}
use model_validation_operato.Operator.Environment.{string_flag_or_env, bool_flag_or_env}

-- The flags behind flag.Parse. Those that an environment variable can set have the value of the
-- command line, if there is one.
pub record Flags : Type 0 where
  pub metrics_addr : String
  pub metrics_cert_path : String
  pub metrics_cert_name : String
  pub metrics_cert_key : String
  pub webhook_cert_path : String
  pub webhook_cert_name : String
  pub webhook_cert_key : String
  pub enable_leader_election : Bool
  pub probe_addr : String
  pub secure_metrics : Bool
  pub enable_http2 : Bool
  pub disable_webhook : Bool
  pub force_legacy_sidecar : Option Bool
  pub enable_service_monitor : Option Bool
  pub validation_agent_image : Option String

-- What `main` reads of its surroundings: the environment, the file of the service account (none if
-- it cannot be read), the two version texts of the cluster (none if they cannot be had), and two
-- functions of Go's library.
pub record System : Type 0 where
  pub getenv : String → String
  pub namespace_file : Option String
  pub server_version : Option (String × String)
  pub join : String → String → String
  pub trim_space : String → String

unfoldable pub get_operator_namespace : System → String
get_operator_namespace sys =
    let ns = sys.getenv "POD_NAMESPACE" in
    if ns == ""
    then (elim sys.namespace_file [ some content ↦ sys.trim_space content | none ↦ "" ])
    else ns

abbrev pub when : Bool → List Step → List Step
when true steps = steps
when false steps = []

-- The last two actions are the deferred ones, which os.Exit does not run.
abbrev pub last_plan : List Step
last_plan = must start_manager ∷ just stop_tracker ∷ just shut_down_otel ∷ []

module _ (flags : Flags) (sys : System) where
  abbrev tls_opts : List TlsOption
  tls_opts = if flags.enable_http2 then [] else disable_http2 ∷ []

  abbrev webhook_certificate : String
  webhook_certificate = sys.join flags.webhook_cert_path flags.webhook_cert_name

  abbrev webhook_key : String
  webhook_key = sys.join flags.webhook_cert_path flags.webhook_cert_key

  abbrev metrics_certificate : String
  metrics_certificate = sys.join flags.metrics_cert_path flags.metrics_cert_name

  abbrev metrics_key : String
  metrics_key = sys.join flags.metrics_cert_path flags.metrics_cert_key

  -- Are certificates given, for a server that runs?
  abbrev watches_webhook : Bool
  watches_webhook =
      if flags.disable_webhook then false else if flags.webhook_cert_path == "" then false else true

  abbrev watches_metrics : Bool
  watches_metrics = if flags.metrics_cert_path == "" then false else true

  abbrev pub with_certificate : Bool → String → String → List TlsOption
  with_certificate watches certificate key =
      if watches then tls_opts ++ (get_certificate certificate key ∷ []) else tls_opts

  unfoldable pub manager_options : ManagerOptions
  manager_options = record {
    bind_address = flags.metrics_addr;
    secure_serving = flags.secure_metrics;
    metrics_tls = with_certificate watches_metrics metrics_certificate metrics_key;
    filtered = flags.secure_metrics;
    webhook_tls =
        if flags.disable_webhook
        then none
        else some (with_certificate watches_webhook webhook_certificate webhook_key);
    health_probe_bind_address = flags.probe_addr;
    leader_election = flags.enable_leader_election;
  }

  unfoldable pub monitor_options : Options
  monitor_options = record {
    namespace = sys.getenv "POD_NAMESPACE";
    service_name = "";
    port_name = "https";
    path = "/metrics";
    secure = flags.secure_metrics;
  }

  -- The value that constants.ModelValidationAgentImage has behind the flags.
  unfoldable pub agent_image : String
  unfolding string_flag_or_env
  agent_image =
      string_flag_or_env flags.validation_agent_image (sys.getenv "VALIDATION_AGENT_IMAGE")
        model_validation_agent_image

  -- Are sidecars injected as init containers that restart?
  unfoldable pub native_sidecars : Bool
  unfolding bool_flag_or_env
  native_sidecars =
      if bool_flag_or_env flags.force_legacy_sidecar (sys.getenv "FORCE_LEGACY_SIDECAR") false
      then false
      else (elim (native_sidecar_support sys.server_version) [ some b ↦ b | none ↦ false ])

  -- The servers and the manager.
  unfoldable pub manager_plan : List Step
  unfolding manager_options
  manager_plan =
      (must set_up_otel_metrics ∷ [])
      ++ when watches_webhook (must (watch_certificates webhook_certificate webhook_key) ∷ [])
      ++ when watches_metrics (must (watch_certificates metrics_certificate metrics_key) ∷ [])
      ++ (must get_config ∷ must (new_manager manager_options) ∷ [])

  -- What is added to the manager.
  unfoldable pub parts_plan : List Step
  unfolding monitor_options bool_flag_or_env
  parts_plan =
      when watches_metrics (must (add_certificate_watcher metrics_certificate metrics_key) ∷ [])
      ++ when watches_webhook (must (add_certificate_watcher webhook_certificate webhook_key) ∷ [])
      ++ when
          (bool_flag_or_env flags.enable_service_monitor (sys.getenv "ENABLE_SERVICE_MONITOR")
            false)
          (must (add_service_monitor monitor_options) ∷ [])
      ++ (must add_healthz_check ∷ must add_readyz_check ∷ [])

  -- The webhook, the tracker and the controllers.
  unfoldable pub controllers_plan : List Step
  unfolding native_sidecars get_operator_namespace
  controllers_plan =
      when (not flags.disable_webhook) (just (register_webhook native_sidecars) ∷ [])
      ++ (just new_status_tracker
          ∷ must set_up_pods
          ∷ must set_up_model_validations
          ∷ must set_up_telemetry_configs
          ∷ [])
      ++ when (get_operator_namespace sys != "")
          (must new_client ∷ must (install_network_policy (get_operator_namespace sys)) ∷ [])

  unfoldable pub plan : List Step
  unfolding manager_plan parts_plan controllers_plan
  plan = manager_plan ++ parts_plan ++ controllers_plan ++ last_plan

-- `fails` says which actions report an error.
unfoldable pub main : (Action → Bool) → Flags → System → Run
unfolding plan run_plan
main fails flags sys = run_plan fails (plan flags sys)
