-- ===== src/Tests/Operators.antt =====
-- cmd/main.go and what it installs, at concrete flags.
use model_validation_operato.Base.{
  ◌≡◌, ◌≢◌, refl, String, Bool, true, false, Option, none, some, [], string_eq, nat_eq, key_eq,
  arith, NamespacedName, All, Among, here, there, any, ◌<>◌,
}
use model_validation_operato.Base.Map
use model_validation_operato.Base.Map.{Map}
use model_validation_operato.Kube.{Upsert, IsUpsert, found_or}
use model_validation_operato.ServiceMonitor.{Options}
use model_validation_operato.Controller.Network.{NetworkPolicy, policy_key, install_network_policy}
use model_validation_operato.Controller.Network.Traffic.{
  Connection, NetworkPlugin, IsEnforcing, rule_admits, may_come, may_go, install_network_policy_lem,
}
use model_validation_operato.Webhook.Version.{
  native_sidecar_support, check_version, leading_digits, atoi, digits_value,
}
use model_validation_operato.Operator.{
  Flags, System, main, plan, manager_plan, parts_plan, controllers_plan, manager_options,
  native_sidecars, get_operator_namespace,
}
use model_validation_operato.Operator.Environment.{bool_flag_or_env}
use model_validation_operato.Operator.Steps.{
  Action, register_webhook, new_manager, start_manager, stop_tracker, shut_down_otel, run_plan,
}
use model_validation_operato.Operator.Plan.{action}
use model_validation_operato.Operator.Safe.{main_native}
use model_validation_operato.Operator.Starts.{setup, main_starts, main_exits}
use model_validation_operato.Base.{not, here, Among-right, ◌||◌, ◌++◌}
use model_validation_operato.Operator.{last_plan}
use model_validation_operato.Controller.Network.Traffic.{is_node, selects, is_operators}

-- Objects as an association list.
module _ {Object : Type 0} where
  abbrev put_found :
      NamespacedName
      → (Object → Object)
      → Object
      → Map NamespacedName Object
      → Option String × Map NamespacedName Object
  put_found key change given store =
      (none, Map.put key (change (found_or (Map.get key store) given)) store)

  abbrev listed_objects : Upsert Object (Map NamespacedName Object)
  listed_objects = record { lookup = Map.get; create_or_update = put_found }

  listed_objects-IsUpsert : IsUpsert listed_objects
  listed_objects-IsUpsert = record {
    stored = λ key change given store h.
        Map.get-put_same key (change (found_or (Map.get key store) given)) store;
    others = λ key other change given store differs.
        Map.get-put_other other key (change (found_or (Map.get key store) given)) store
          (ground arith);
  }

abbrev options : Options
options = record {
  namespace = "operators";
  service_name = "";
  port_name = "https";
  path = "/metrics";
  secure = true;
}

-- A plugin that reads the rules.
abbrev reader : NetworkPlugin
reader = record {
  accepts = λ spec labels c.
      is_node c.end || not (selects spec.pod_selector labels) || any (rule_admits c) spec.ingress;
  opens = λ spec labels c.
      is_node c.end || not (selects spec.pod_selector labels) || any (rule_admits c) spec.egress;
}

reader-IsEnforcing : IsEnforcing reader
reader-IsEnforcing = record {
  by_ingress = λ spec labels c m. refl;
  by_egress = λ spec labels c m. refl;
}

install_network_policy_lem_example :
    (np : NetworkPolicy) × (Map.get
        (policy_key "operators")
        (install_network_policy listed_objects "operators" []).1
      ≡ some np)
    × ((labels : Map String String) (c : Connection)
        → reader.accepts np.spec labels c
          ≡ (is_node c.end || not (is_operators labels) || may_come c))
    × ((labels : Map String String) (c : Connection)
        → reader.opens np.spec labels c ≡ (is_node c.end || not (is_operators labels) || may_go c))
    × ((other : NamespacedName)
        → other ≢ policy_key "operators"
        → Map.get other (install_network_policy listed_objects "operators" []).1 ≡ Map.get other [])
unfolding install_network_policy
install_network_policy_lem_example =
    install_network_policy_lem listed_objects listed_objects-IsUpsert reader reader-IsEnforcing
      "operators" [] refl

abbrev flags : Flags
flags = record {
  metrics_addr = ":8443";
  metrics_cert_path = "";
  metrics_cert_name = "tls.crt";
  metrics_cert_key = "tls.key";
  webhook_cert_path = "";
  webhook_cert_name = "tls.crt";
  webhook_cert_key = "tls.key";
  enable_leader_election = false;
  probe_addr = ":8081";
  secure_metrics = true;
  enable_http2 = false;
  disable_webhook = false;
  force_legacy_sidecar = none;
  enable_service_monitor = none;
  validation_agent_image = none;
}

-- A cluster of version 1.29, with nothing set in the environment.
abbrev sys : System
sys = record {
  getenv = λ name. "";
  namespace_file = some "operators";
  server_version = some ("1", "29");
  join = λ dir file. dir <> ("/" <> file);
  trim_space = λ s. s;
}

abbrev works : Action → Bool
works a = false

abbrev manager_fails : Action → Bool
manager_fails start_manager = true
manager_fails _ = false

injects_native : Among (register_webhook true) (main works flags sys).log
unfolding main plan run_plan manager_plan parts_plan controllers_plan native_sidecars string_eq
    get_operator_namespace bool_flag_or_env native_sidecar_support check_version leading_digits atoi
    digits_value nat_eq
injects_native = there _ _ (there _ _ (there _ _ (there _ _ (there _ _ (here _)))))

main_native_example :
    (native_sidecar_support sys.server_version ≡ some true)
    × (flags.disable_webhook ≡ false)
    × (flags.force_legacy_sidecar ≢ some true)
main_native_example = main_native flags sys works injects_native

makes_manager : Among (new_manager (manager_options flags sys)) (main works flags sys).log
unfolding main plan run_plan manager_plan parts_plan controllers_plan string_eq
makes_manager = there _ _ (there _ _ (here _))

starts : Among start_manager (main works flags sys).log
unfolding main plan run_plan manager_plan parts_plan controllers_plan native_sidecars string_eq
    get_operator_namespace bool_flag_or_env
starts = there _ _ (
    there _ _ (
      there _ _ (
        there _ _ (
          there _ _ (
            there _ _
              (there _ _ (there _ _ (there _ _ (there _ _ (there _ _ (there _ _ (here _))))))))))))

main_starts_example : All (λ s. Among (action s) (main works flags sys).log) (setup flags sys)
main_starts_example = main_starts flags sys works starts

main_exits_example :
    ((main manager_fails flags sys).status ≡ 1)
    × (Among stop_tracker (main manager_fails flags sys).log → ⊥)
    × (Among shut_down_otel (main manager_fails flags sys).log → ⊥)
unfolding main plan run_plan manager_plan parts_plan controllers_plan native_sidecars string_eq
    get_operator_namespace bool_flag_or_env
main_exits_example =
    main_exits flags sys manager_fails start_manager
      (Among-right (manager_plan flags sys ++ parts_plan flags sys ++ controllers_plan flags sys)
        last_plan (here _))
      refl
