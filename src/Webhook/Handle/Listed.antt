-- ===== src/Webhook/Handle/Listed.antt =====
-- internal/webhooks/pod_webhook.go with internal/tracker/status_tracker.go, from the admission of a
-- pod to the status of its resource.
use model_validation_operato.Base.{
  ◌≡◌, ◌≢◌, ◌∙◌, ap, subst, ℕ, key_eq, String, Bool, Option, none, some, List, arith, string_eq,
}
use model_validation_operato.Base.Map
use model_validation_operato.Constants.{model_validation_label}
use model_validation_operato.Api.{ModelValidation, ModelValidationStatus, TelemetryConfig}
use model_validation_operato.Api.Method.{get_auth_method}
use model_validation_operato.Api.Hash.{get_config_hash}
use model_validation_operato.Metrics.{injected}
use model_validation_operato.Kube.{Pod, Namespace, Finalizers, IsLawful}
use model_validation_operato.Tracker.Info.{ModelValidationInfo}
use model_validation_operato.Tracker.Info.View.{view_state}
use model_validation_operato.Tracker.State.{StatusTracker, mv_key, process_pod_event}
use model_validation_operato.Tracker.State.Consistent.{IsConsistent}
use model_validation_operato.Tracker.State.Invariant.{process_pod_event-IsConsistent}
use model_validation_operato.Tracker.State.Seeding.{config_of, config_of-process_pod_event}
use model_validation_operato.Tracker.State.Views.{named_by}
use model_validation_operato.Tracker.Status.Listing.{listed_state}
use model_validation_operato.Tracker.Status.Written.{
  update, status_after, listed_state-stored_after, error-do_update_status,
}
use model_validation_operato.Webhook.Telemetry.{Matcher}
use model_validation_operato.Webhook.Handle.Inject.{inject}
use model_validation_operato.Webhook.Handle.Tracked.{admitted, text_at_of, process_pod_event-inject}

-- The configuration that is tracked after the event of a pod that names the resource.
config_of-event :
    (F : Finalizers) (q : Pod) (mv : ModelValidation) (info : ModelValidationInfo)
    (st : StatusTracker)
    → named_by q ≡ mv_key mv
    → Map.get (mv_key mv) st.model_validations ≡ some info
    → config_of (Map.get (mv_key mv) (process_pod_event F q st).model_validations)
      ≡ config_of (some info)
config_of-event F q mv info st e t =
    subst
      (λ key.
        config_of (Map.get key (process_pod_event F q st).model_validations)
        ≡ config_of (Map.get key st.model_validations))
      e (config_of-process_pod_event F q st)
    ∙ ap config_of t

module _ (digest : String → String) (matches : Matcher) (F : Finalizers) (lawful : IsLawful F)
    (now : String) (listed : Option (List TelemetryConfig)) (native : Bool) (pod : Pod)
    (ns : Namespace) (mv : ModelValidation) where
  named_by-admitted :
      Map.get model_validation_label pod.labels ≡ some mv.name
      → pod.namespace ≡ mv.namespace
      → named_by (admitted digest matches F lawful now listed native pod ns mv) ≡ mv_key mv
  unfolding inject
  named_by-admitted label same = λ i. record {
    namespace = same i;
    name = text_at_of model_validation_label pod.labels label i;
  }

  -- A pod that the webhook extended for a resource appears as injected in the status of the
  -- resource: when its event arrives while the resource is tracked in the same configuration and
  -- generation, an update of the resource has no error, if the API server takes the status, and
  -- leaves the resource with a status that lists the pod among the injected ones.
  pub inject_listed :
      (write : ModelValidationStatus → Option String) (at : ℕ) (info : ModelValidationInfo)
      (st : StatusTracker)
      → IsConsistent st
      → Map.get model_validation_label pod.labels ≡ some mv.name
      → mv.name ≢ ""
      → pod.namespace ≡ mv.namespace
      → Map.get (mv_key mv) st.model_validations ≡ some info
      → config_of (some info) ≡ some (get_config_hash digest mv, get_auth_method mv, mv.generation)
      → ((s : ModelValidationStatus) → write s ≡ none)
      → let q = inject digest matches F now listed native pod ns mv in
        let seen = process_pod_event F q st in
        ((update digest write at (mv_key mv) mv seen).error ≡ none)
        × (listed_state pod.uid (status_after digest write at (mv_key mv) mv seen) ≡ injected)
  inject_listed write at info st c label nonempty same tracked h w =
      let q = admitted digest matches F lawful now listed native pod ns mv in
      let seen = process_pod_event F q st in
      let config = config_of-event F q mv info st (named_by-admitted label same) tracked in
      let e = error-do_update_status digest write at (mv_key mv) mv seen (config ∙ h) w in
      (
        e,
        listed_state-stored_after digest write at pod.uid (mv_key mv) mv seen
              (process_pod_event-IsConsistent F q st c) (λ n. absurd (ground arith)) e
            ∙ ap view_state (
                process_pod_event-inject digest matches F lawful now listed native pod ns mv info st
                  c label nonempty same tracked (ground (arith, h)) (ground (arith, h))),
      )
