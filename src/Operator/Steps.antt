-- ===== src/Operator/Steps.antt =====
-- cmd/main.go: the actions of the start, and the run of a plan of them.
use model_validation_operato.Base.{ℕ, String, Bool, Option, List, [], ◌∷◌, if◌then◌else◌}
use model_validation_operato.ServiceMonitor.{Options}

-- The functions that main hands to the TLS configuration of a server.
pub data TlsOption : Type 0 where
  disable_http2 : TlsOption
  get_certificate : (certificate key : String) → TlsOption

pub record ManagerOptions : Type 0 where
  pub bind_address : String
  pub secure_serving : Bool
  pub metrics_tls : List TlsOption
  pub filtered : Bool
  pub webhook_tls : Option (List TlsOption)
  pub health_probe_bind_address : String
  pub leader_election : Bool

pub data Action : Type 0 where
  set_up_otel_metrics get_config : Action
  watch_certificates : (certificate key : String) → Action
  new_manager : ManagerOptions → Action
  add_certificate_watcher : (certificate key : String) → Action
  add_service_monitor : Options → Action
  add_healthz_check add_readyz_check : Action
  register_webhook : Bool → Action
  new_status_tracker : Action
  set_up_pods set_up_model_validations set_up_telemetry_configs : Action
  new_client : Action
  install_network_policy : String → Action
  start_manager : Action
  stop_tracker shut_down_otel : Action

-- An action whose error ends the program with status 1, and one that has none.
pub data Step : Type 0 where
  must : Action → Step
  just : Action → Step

-- The actions that were performed, the failed one included, and the status.
pub record Run : Type 0 where
  pub log : List Action
  pub status : ℕ

abbrev record_action : Action → Run → Run
record_action a run = record run { log = a ∷ run.log }

unfoldable pub run_plan : (Action → Bool) → List Step → Run
run_plan fails [] = record { log = []; status = 0 }
run_plan fails (just a ∷ steps) = record_action a (run_plan fails steps)
run_plan fails (must a ∷ steps) =
    let rest = run_plan fails steps in
    if fails a then record { log = a ∷ []; status = 1 } else record_action a rest
