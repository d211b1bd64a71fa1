-- ===== src/Operator/Safe.antt =====
-- cmd/main.go: what is true of every action that a start performs.
use model_validation_operato.Base.{
  ◌≡◌, ◌≢◌, refl, String, Bool, true, false, Option, none, some, List, [], ◌∷◌, ◌++◌, arith, inl,
  inr, Bool-cases, All, All-append, Among, All-Among, here, string_eq, if◌then◌else◌,
}
use model_validation_operato.ServiceMonitor.{Options, endpoint, new_creator}
use model_validation_operato.Webhook.Version.{native_sidecar_support}
use model_validation_operato.Operator.{
  Flags, System, get_operator_namespace, manager_options, monitor_options, native_sidecars, plan,
  last_plan, with_certificate, manager_plan, parts_plan, controllers_plan, main,
}
use model_validation_operato.Operator.Environment.{bool_flag_or_env}
use model_validation_operato.Operator.Steps.{
  TlsOption, disable_http2, get_certificate, ManagerOptions, Action, new_manager,
  add_service_monitor, register_webhook, install_network_policy, Step,
}
use model_validation_operato.Operator.Plan.{action, All-run_plan}

abbrev pub webhook_servers : Option (List TlsOption) → List (List TlsOption)
webhook_servers none = []
webhook_servers (some tls) = tls ∷ []

module _ (flags : Flags) (sys : System) where
  -- The arguments with which an action can be performed.
  abbrev pub IsPlanned : Action → Type 0
  IsPlanned (register_webhook native) =
      (flags.disable_webhook ≡ false) × (native ≡ native_sidecars flags sys)
  IsPlanned (new_manager opts) = opts ≡ manager_options flags sys
  IsPlanned (add_service_monitor opts) = opts ≡ monitor_options flags sys
  IsPlanned (install_network_policy ns) = (ns ≢ "") × (ns ≡ get_operator_namespace sys)
  IsPlanned _ = Unit

  abbrev IsPlannedStep : Step → Type 0
  IsPlannedStep s = IsPlanned (action s)

  All-manager_plan : All IsPlannedStep (manager_plan flags sys)
  unfolding manager_plan
  All-manager_plan = ground arith

  All-parts_plan : All IsPlannedStep (parts_plan flags sys)
  unfolding parts_plan
  All-parts_plan = ground arith

  All-controllers_plan : All IsPlannedStep (controllers_plan flags sys)
  unfolding controllers_plan
  All-controllers_plan = ground arith

  All-plan : All IsPlannedStep (plan flags sys)
  unfolding plan
  All-plan =
      let m = manager_plan flags sys in
      let p = parts_plan flags sys in
      let c = controllers_plan flags sys in
      let parts = All-append IsPlannedStep m p All-manager_plan All-parts_plan in
      let all = All-append IsPlannedStep (m ++ p) c parts All-controllers_plan in
      All-append IsPlannedStep (m ++ p ++ c) last_plan all (tt, (tt, (tt, tt)))

  with_certificate_lem :
      (watches : Bool) (certificate key : String)
      → flags.enable_http2 ≡ false
      → Among disable_http2 (with_certificate flags sys watches certificate key)
  with_certificate_lem true certificate key h = rw h (here (get_certificate certificate key ∷ []))
  with_certificate_lem false certificate key h = rw h (here [])

  module _ (fails : Action → Bool) where
    main-IsPlanned : All IsPlanned (main fails flags sys).log
    unfolding main
    main-IsPlanned = All-run_plan fails IsPlanned (plan flags sys) All-plan

    -- Whatever fails, the webhook injects sidecars as init containers that restart only on a cluster
    -- whose version supports them, and neither with the webhook disabled nor with the legacy form
    -- forced by the flag.
    pub main_native :
        Among (register_webhook true) (main fails flags sys).log
        → (native_sidecar_support sys.server_version ≡ some true)
          × (flags.disable_webhook ≡ false)
          × (flags.force_legacy_sidecar ≢ some true)
    unfolding native_sidecars bool_flag_or_env
    main_native m =
        let (enabled, native) = All-Among IsPlanned m main-IsPlanned in
        (ground arith, enabled, λ h. ground arith)

    -- Unless HTTP/2 is enabled, the manager that is made has a metrics server, and a webhook server
    -- if it has one, that are told to leave it out; and a metrics server that serves securely asks
    -- for authentication and authorization.
    pub main_without_http2 :
        (opts : ManagerOptions)
        → Among (new_manager opts) (main fails flags sys).log
        → flags.enable_http2 ≡ false
        → All (Among disable_http2) (opts.metrics_tls ∷ webhook_servers opts.webhook_tls)
          × (opts.filtered ≡ opts.secure_serving)
    unfolding manager_options
    main_without_http2 opts m h =
        rw (All-Among IsPlanned m main-IsPlanned) (elim (Bool-cases flags.disable_webhook) [
          | inl e ↦ rw e ((with_certificate_lem _ _ _ h, tt), refl)
          | inr e ↦ rw e ((with_certificate_lem _ _ _ h, (with_certificate_lem _ _ _ h, tt)), refl)
        ])

    -- The ServiceMonitor that is asked for has the scheme of the metrics server that the manager
    -- was given, and its path, in every environment.
    pub main_scrapes :
        (opts : ManagerOptions) (monitor : Options) (pod_namespace : String) (file : Option String)
        → Among (new_manager opts) (main fails flags sys).log
        → Among (add_service_monitor monitor) (main fails flags sys).log
        → ((endpoint (new_creator pod_namespace file monitor)).scheme
            ≡ (if opts.secure_serving then "https" else "http"))
          × ((endpoint (new_creator pod_namespace file monitor)).path ≡ "/metrics")
    unfolding manager_options monitor_options new_creator string_eq
    main_scrapes opts monitor pod_namespace file m s =
        rw (All-Among IsPlanned m main-IsPlanned, All-Among IsPlanned s main-IsPlanned) (refl, refl)
