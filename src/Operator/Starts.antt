-- ===== src/Operator/Starts.antt =====
-- cmd/main.go: what a start that gets as far as the manager has done, and how one ends.
use model_validation_operato.Base.{
  ◌≡◌, ◌∙◌, ◌⊎◌, refl, sym, subst, Bool, List, [], ◌∷◌, ◌++◌, arith, inl, inr, Bool-cases, All,
  All-append, Among, here, there, Among-or, All-Among, Among-left, Among-right, map, not, ◌!=◌,
  string_eq,
}
use model_validation_operato.Operator.{
  Flags, System, get_operator_namespace, manager_options, native_sidecars, plan, last_plan,
  manager_plan, parts_plan, controllers_plan, main, when,
}
use model_validation_operato.Operator.Steps.{
  Action, set_up_otel_metrics, new_manager, add_healthz_check, add_readyz_check, register_webhook,
  new_status_tracker, set_up_pods, set_up_model_validations, set_up_telemetry_configs,
  install_network_policy, start_manager, stop_tracker, shut_down_otel, Step, must, just, run_plan,
}
use model_validation_operato.Operator.Plan.{action, log-append, All-run_plan}
use model_validation_operato.Operator.Plan.{IsRun, finished, stopped, IsPassed, run_plan-IsRun}
use model_validation_operato.Operator.Steps.{Run}
use model_validation_operato.Base.{true}

-- The action is neither the start of the manager nor one of the deferred ones.
abbrev IsSetup : Action → Type 0
IsSetup start_manager = ⊥
IsSetup stop_tracker = ⊥
IsSetup shut_down_otel = ⊥
IsSetup _ = Unit {0}

abbrev IsSetupStep : Step → Type 0
IsSetupStep s = IsSetup (action s)

-- Membership that computes.
abbrev IsIn : Step → List Step → Type 0
IsIn s [] = ⊥
IsIn s (t ∷ ts) = (s ≡ t) ⊎ IsIn s ts

Among-of_IsIn : {s : Step} (steps : List Step) → IsIn s steps → Among s steps
Among-of_IsIn [] i = absurd i
Among-of_IsIn {s} (t ∷ ts) (inl e) = subst (λ u. Among s (u ∷ ts)) e (here ts)
Among-of_IsIn (t ∷ ts) (inr i) = there t ts (Among-of_IsIn ts i)

All-imp : {P Q : Step → Type 0} (xs : List Step) → ((s : Step) → P s → Q s) → All P xs → All Q xs
All-imp [] f h = tt
All-imp (s ∷ xs) f (p, h) = (f s p, All-imp xs f h)

abbrev IsNotDeferred : Action → Type 0
IsNotDeferred stop_tracker = ⊥
IsNotDeferred shut_down_otel = ⊥
IsNotDeferred _ = Unit {0}

All-action : (steps : List Step) → All IsSetupStep steps → All IsSetup (map action steps)
All-action [] h = tt
All-action (s ∷ steps) (p, h) = (p, All-action steps h)

Among-action : {s : Step} {steps : List Step} → Among s steps → Among (action s) (map action steps)
Among-action (here xs) = here (map action xs)
Among-action (there y xs m) = there (action y) (map action xs) (Among-action m)

module _ (flags : Flags) (sys : System) where
  -- The plan up to the start of the manager.
  abbrev setup_plan : List Step
  setup_plan = manager_plan flags sys ++ parts_plan flags sys ++ controllers_plan flags sys

  All-setup_plan : All IsSetupStep setup_plan
  unfolding manager_plan parts_plan controllers_plan
  All-setup_plan =
      All-append IsSetupStep (manager_plan flags sys ++ parts_plan flags sys)
        (controllers_plan flags sys)
        (All-append IsSetupStep (manager_plan flags sys) (parts_plan flags sys) (ground arith)
          (ground arith))
        (ground arith)

  -- What is set up in every start, and what the flags and the environment ask for.
  abbrev manager_setup : List Step
  manager_setup = must set_up_otel_metrics ∷ must (new_manager (manager_options flags sys)) ∷ []

  abbrev parts_setup : List Step
  parts_setup = must add_healthz_check ∷ must add_readyz_check ∷ []

  abbrev controllers_setup : List Step
  controllers_setup =
      (just new_status_tracker
        ∷ must set_up_pods
        ∷ must set_up_model_validations
        ∷ must set_up_telemetry_configs
        ∷ [])
      ++ when (not flags.disable_webhook) (just (register_webhook (native_sidecars flags sys)) ∷ [])
      ++ when (get_operator_namespace sys != "")
          (must (install_network_policy (get_operator_namespace sys)) ∷ [])

  abbrev pub setup : List Step
  setup = manager_setup ++ parts_setup ++ controllers_setup

  manager_plan_has : All (λ s. IsIn s (manager_plan flags sys)) manager_setup
  unfolding manager_plan
  manager_plan_has = ground arith

  parts_plan_has : All (λ s. IsIn s (parts_plan flags sys)) parts_setup
  unfolding parts_plan
  parts_plan_has = ground arith

  controllers_plan_has : All (λ s. IsIn s (controllers_plan flags sys)) controllers_setup
  unfolding controllers_plan
  controllers_plan_has = ground arith

  abbrev IsSetUp : Step → Type 0
  IsSetUp s = Among s setup_plan

  All-setup : All IsSetUp setup
  All-setup =
      let m = manager_plan flags sys in
      let p = parts_plan flags sys in
      let c = controllers_plan flags sys in
      All-append IsSetUp (manager_setup ++ parts_setup) controllers_setup
        (All-append IsSetUp manager_setup parts_setup
          (All-imp manager_setup
            (λ s i. Among-left (m ++ p) c (Among-left {x = s} m p (Among-of_IsIn m i)))
            manager_plan_has)
          (All-imp parts_setup
            (λ s i. Among-left (m ++ p) c (Among-right {x = s} m p (Among-of_IsIn p i)))
            parts_plan_has))
        (All-imp controllers_setup (λ s i. Among-right (m ++ p) c (Among-of_IsIn c i))
          controllers_plan_has)

  module _ (fails : Action → Bool) where
    -- The manager starts only behind the whole setup.
    log_lem :
        Among start_manager (main fails flags sys).log
        → (main fails flags sys).log ≡ map action setup_plan ++ (run_plan fails last_plan).log
    unfolding main plan
    log_lem m = elim (log-append fails setup_plan last_plan) [
      | inl (e, s) ↦ e
      | inr e ↦ absurd (
          All-Among IsSetup (subst (Among start_manager) e m)
            (All-run_plan fails IsSetup setup_plan All-setup_plan))
    ]

    -- The manager starts only after everything was set up: the metrics, the manager with its
    -- options, both checks, the tracker and the three controllers, and, where the flags and the
    -- environment ask for them, the webhook with the kind of sidecars that the cluster supports and
    -- the network policy of the operator's namespace.
    pub main_starts :
        Among start_manager (main fails flags sys).log
        → All (λ s. Among (action s) (main fails flags sys).log) setup
    main_starts m =
        let log = map action setup_plan ++ (run_plan fails last_plan).log in
        subst (λ l. All (λ s. Among (action s) l) setup) (sym (log_lem m))
          (All-imp {Q = λ s. Among (action s) log} setup
            (λ s i.
              Among-left (map action setup_plan) (run_plan fails last_plan).log (Among-action i))
            All-setup)

    last_lem :
        (run_plan fails last_plan).status ≡ 1 → (run_plan fails last_plan).log ≡ start_manager ∷ []
    unfolding run_plan
    last_lem h = elim (Bool-cases (fails start_manager)) [
      | inl e ↦ rw e refl
      | inr e ↦ absurd (ground arith)
    ]

    deferred_lem :
        (a : Action)
        → (IsSetup a → ⊥)
        → (IsNotDeferred a → ⊥)
        → (main fails flags sys).status ≡ 1
        → Among a (main fails flags sys).log
        → ⊥
    unfolding main plan
    deferred_lem a not_setup deferred h m = elim (log-append fails setup_plan last_plan) [
      | inr e ↦ not_setup (
          All-Among IsSetup (subst (Among a) e m)
            (All-run_plan fails IsSetup setup_plan All-setup_plan))
      | inl (e, s) ↦
          elim (Among-or (map action setup_plan) (run_plan fails last_plan).log
            (subst (Among a) e m)) [
              | inl n ↦ not_setup (All-Among IsSetup n (All-action setup_plan All-setup_plan))
              | inr n ↦
                  deferred
                    (All-Among IsNotDeferred (subst (Among a) (last_lem (sym s ∙ h)) n) (tt, tt))
            ]
    ]

    status-IsRun :
        {steps : List Step} {run : Run} (a : Action)
        → IsRun fails steps run
        → Among (must a) steps
        → fails a ≡ true
        → run.status ≡ 1
    status-IsRun a (finished ps) m f = absurd (ground (arith, All-Among (IsPassed fails) m ps))
    status-IsRun a (stopped before after b e ps g) m f = refl

    -- A start in which an action that can fail, from the metrics to the manager itself, fails when it
    -- is reached, or is not reached because another one failed before it, ends with status 1 and
    -- neither stops the status tracker nor shuts the metrics down: the calls that `main` has
    -- deferred by then are not run.
    pub main_exits :
        (a : Action)
        → Among (must a) (plan flags sys)
        → fails a ≡ true
        → ((main fails flags sys).status ≡ 1)
          × (Among stop_tracker (main fails flags sys).log → ⊥)
          × (Among shut_down_otel (main fails flags sys).log → ⊥)
    unfolding main
    main_exits a m f =
        let h = status-IsRun a (run_plan-IsRun fails (plan flags sys)) m f in
        (
          h,
          deferred_lem stop_tracker (λ x. x) (λ x. x) h,
          deferred_lem shut_down_otel (λ x. x) (λ x. x) h,
        )
