-- ===== src/Webhook/Telemetry.antt =====
-- internal/webhooks/telemetry.go: which TelemetryConfig a pod's agent gets.
pub mod Winner
use model_validation_operato.Base.{
  ℕ, ◌+◌, String, ◌<>◌, Bool, true, false, not, ◌&&◌, Option, none, some, List, [], ◌∷◌, ◌++◌,
  length, ◌==◌, ◌!=◌, string_eq, nat_eq, ltb, less_text, if◌then◌else◌, bool_eq,
}
use model_validation_operato.Base.Map.{Map}
use model_validation_operato.Base.Sort.{sort_slice}
use model_validation_operato.Api.{
  ModelValidation, TelemetryConfig, LabelSelector, TracingConfig, EnvVar,
}
use model_validation_operato.Kube.{Namespace}

-- metav1.LabelSelectorAsSelector, with the Matches of the selector that it gives; none if the
-- selector is invalid.
abbrev pub Matcher : Type 0
Matcher = LabelSelector → Option (Map String String → Bool)

unfoldable pub selector_specificity : Option LabelSelector → ℕ
selector_specificity none = 0
selector_specificity (some sel) = length sel.match_labels + length sel.match_expressions

pub record Candidate : Type 0 where
  pub tc : TelemetryConfig
  pub specificity : ℕ

abbrev pub candidate : TelemetryConfig → Candidate
candidate tc = record {
  tc = tc;
  specificity = selector_specificity tc.namespace_selector + selector_specificity tc.selector;
}

module _ (matches : Matcher) where
  -- No selector matches all, and an invalid one nothing.
  abbrev pub selects : Option LabelSelector → Map String String → Bool
  selects none labels = true
  selects (some sel) labels = elim (matches sel) [ some accepts ↦ accepts labels | none ↦ false ]

  module _ (namespace : Namespace) (mv : ModelValidation) where
    -- The conditions of the loop over the configurations.
    unfoldable pub applies : TelemetryConfig → Bool
    applies tc =
        tc.tracing.enabled
        && (selects tc.namespace_selector namespace.labels && selects tc.selector mv.labels)

    unfoldable pub collect_candidates : List TelemetryConfig → List Candidate
    unfolding applies
    collect_candidates [] = []
    collect_candidates (tc ∷ tcs) =
        let rest = collect_candidates tcs in if applies tc then candidate tc ∷ rest else rest

-- The comparison that `sort.Slice` is given: the more specific one, then the one in the
-- namespace of the pod, then the smaller name.
unfoldable pub more_specific : String → Candidate → Candidate → Bool
more_specific target_ns ci cj =
    let i_same = ci.tc.namespace == target_ns in
    let j_same = cj.tc.namespace == target_ns in
    if ci.specificity != cj.specificity
    then ltb cj.specificity ci.specificity
    else if i_same != j_same
    then i_same
    else less_text (ci.tc.namespace <> "/" <> ci.tc.name) (cj.tc.namespace <> "/" <> cj.tc.name)

abbrev first_tc : List Candidate → Option TelemetryConfig
first_tc [] = none
first_tc (c ∷ cs) = some c.tc

-- A listing that failed is `none`. The caller goes on without a configuration then.
unfoldable pub find_matching_telemetry_config :
    Matcher → Option (List TelemetryConfig) → Namespace → ModelValidation → Option TelemetryConfig
unfolding collect_candidates more_specific
find_matching_telemetry_config matches none namespace mv = none
find_matching_telemetry_config matches (some items) namespace mv =
    first_tc
      (sort_slice (more_specific namespace.name) (collect_candidates matches namespace mv items))

abbrev bool_text : Bool → String
bool_text true = "true"
bool_text false = "false"

abbrev insecure_env : Option Bool → List EnvVar
insecure_env none = []
insecure_env (some b) = record { name = "OTEL_EXPORTER_OTLP_INSECURE"; value = bool_text b } ∷ []

abbrev env_if_set : String → String → List EnvVar
env_if_set name text = if text == "" then [] else record { name = name; value = text } ∷ []

unfoldable pub tracing_env : TracingConfig → List EnvVar
tracing_env tracing =
    record { name = "OTEL_SERVICE_NAME"; value = "validation-agent" }
    ∷ record { name = "OTEL_EXPORTER_OTLP_ENDPOINT"; value = tracing.endpoint }
    ∷ (insecure_env tracing.insecure
        ++ (env_if_set "OTEL_TRACES_SAMPLER" tracing.sampler
            ++ (env_if_set "OTEL_TRACES_SAMPLER_ARG" tracing.sampler_arg ++ tracing.env)))

unfoldable pub telemetry_env_vars : Option TelemetryConfig → List EnvVar
unfolding tracing_env
telemetry_env_vars none = []
telemetry_env_vars (some tc) = if tc.tracing.enabled then tracing_env tc.tracing else []
