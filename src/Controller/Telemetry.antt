-- ===== src/Controller/Telemetry.antt =====
-- internal/controller/telemetryconfig_controller.go: the counts of what a TelemetryConfig selects.
pub mod Laws
use model_validation_operato.Base.{
  ℕ, ◌+◌, ◌^◌, ◌%◌, String, Bool, true, false, Option, none, some, List, [], ◌∷◌, ◌++◌, length, map,
  ◌==◌, string_eq, if◌then◌else◌, NamespacedName,
}
use model_validation_operato.Base.Map.{Map}
use model_validation_operato.Api.{
  TelemetryConfig, ModelValidation, LabelSelector, Condition, TelemetryConfigStatus,
}
use model_validation_operato.Kube.{Namespace, Fetch, found, not_found, failed}
use model_validation_operato.Webhook.Telemetry.{Matcher}
use model_validation_operato.Tracker.Status.{int32}
use model_validation_operato.Controller.{Reconciled, done, retry}

-- Replaces the first condition of the same type, or appends.
unfoldable pub set_condition : List Condition → Condition → List Condition
set_condition [] cond = cond ∷ []
set_condition (existing ∷ rest) cond =
    let others = set_condition rest cond in
    if existing.kind == cond.kind then cond ∷ rest else existing ∷ others

-- The loop that counts the listed objects whose labels match.
unfoldable pub count_loop : (Map String String → Bool) → List (Map String String) → ℕ → ℕ
count_loop accepts [] count = count
count_loop accepts (labels ∷ rest) count =
    count_loop accepts rest (if accepts labels then int32 (count + 1) else count)

module _ (matches : Matcher) where
  -- countMatchedNamespaces and countMatchedModelValidations, on the labels of the listed objects.
  -- A listing that failed, and a selector that is invalid, are errors.
  unfoldable pub count_matched : Option LabelSelector → Option (List (Map String String)) → Option ℕ
  unfolding count_loop
  count_matched selector none = none
  count_matched none (some items) = some (int32 (length items))
  count_matched (some sel) (some items) = elim (matches sel) [
    | none ↦ none
    | some accepts ↦ some (count_loop accepts items 0)
  ]

  unfoldable pub ready_condition : TelemetryConfig → ℕ → Condition
  ready_condition tc now = record {
    kind = "Ready";
    status = "True";
    observed_generation = tc.generation;
    last_transition_time = now;
    reason = "SelectorsEvaluated";
    message = "Selectors evaluated successfully";
  }

  unfoldable pub new_status : TelemetryConfig → ℕ → ℕ → ℕ → TelemetryConfigStatus
  unfolding set_condition ready_condition
  new_status tc ns_count mv_count now = record {
    matched_namespace_count = ns_count;
    matched_model_validation_count = mv_count;
    last_applied = now;
    conditions = set_condition tc.status.conditions (ready_condition tc now);
  }

  -- The write of the status, when both counts are there. A written status is `some`.
  abbrev pub write_status :
      (TelemetryConfig → Option String)
      → TelemetryConfig
      → ℕ
      → Option ℕ
      → Option ℕ
      → Option TelemetryConfigStatus × Reconciled
  write_status update tc now none mv_count = (none, retry "namespaces")
  write_status update tc now (some n) none = (none, retry "model validations")
  write_status update tc now (some n) (some m) =
      elim (update (record tc { status = new_status tc n m now })) [
        | some e ↦ (none, retry e)
        | none ↦ (some (new_status tc n m now), done)
      ]

  unfoldable pub reconcile :
      (TelemetryConfig → Option String)
      → Option (List (Map String String))
      → Option (List (Map String String))
      → ℕ
      → Fetch TelemetryConfig
      → Option TelemetryConfigStatus × Reconciled
  unfolding count_matched new_status
  reconcile update namespaces mvs now not_found = (none, done)
  reconcile update namespaces mvs now (failed e) = (none, retry e)
  reconcile update namespaces mvs now (found tc) = elim tc.deletion_timestamp [
    | some _ ↦ (none, done)
    | none ↦
        write_status update tc now (count_matched tc.namespace_selector namespaces)
          (count_matched tc.selector mvs)
  ]

-- mapNamespaceToTelemetryConfigs and mapModelValidationToTelemetryConfigs.
unfoldable pub requests_for : Option (List TelemetryConfig) → List NamespacedName
requests_for none = []
requests_for (some tcs) = map (λ tc. record { namespace = tc.namespace; name = tc.name }) tcs

-- What the controller watches: its own resources, namespaces and ModelValidation resources.
pub data Watched : Type 0 where
  telemetry_config : NamespacedName → Watched
  namespace model_validation : Watched

-- The requests that an event of a watched object makes, with what List answers.
unfoldable pub watch_requests : Option (List TelemetryConfig) → Watched → List NamespacedName
unfolding requests_for
watch_requests listed (telemetry_config key) = key ∷ []
watch_requests listed namespace = requests_for listed
watch_requests listed model_validation = requests_for listed
