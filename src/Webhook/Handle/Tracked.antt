-- ===== src/Webhook/Handle/Tracked.antt =====
-- internal/webhooks/pod_webhook.go with internal/tracker/status_tracker.go: the tracker reads the
-- marks that the webhook writes on a pod.
use model_validation_operato.Base.{
  ◌≡◌, ◌≢◌, ◌∙◌, refl, sym, key_eq, String, Bool, true, false, Option, some, List, arith, inl, inr,
  ◌==◌, string_eq, Bool-cases,
}
use model_validation_operato.Base.Map
use model_validation_operato.Base.Map.{Map}
use model_validation_operato.Constants.{
  model_validation_finalizer, auth_method_annotation_key, config_hash_annotation_key,
  injected_annotation_key, continuous_validation_annotation_key, model_validation_label,
}
use model_validation_operato.Api.{ModelValidation, TelemetryConfig}
use model_validation_operato.Api.Method.{get_auth_method}
use model_validation_operato.Api.Hash.{get_config_hash}
use model_validation_operato.Metrics.{injected}
use model_validation_operato.Kube.{Pod, Namespace, Finalizers, IsLawful}
use model_validation_operato.Tracker.Info.{ModelValidationInfo, is_drifted, PodInfo}
use model_validation_operato.Tracker.State.{
  StatusTracker, mv_key, pod_info_of, process_pod_event, text_at,
}
use model_validation_operato.Tracker.State.Consistent.{IsConsistent}
use model_validation_operato.Tracker.State.Views.{view_at, view_at-process_pod_event, classify}
use model_validation_operato.Webhook.Telemetry.{Matcher}
use model_validation_operato.Webhook.Container.{mark_continuous, continuous_enabled}
use model_validation_operato.Webhook.Handle.Inject.{annotate, inject}

module _ (digest : String → String) (now : String) (mv : ModelValidation)
    (annotations : Map String String) where
  abbrev marked : Map String String
  marked = mark_continuous mv (annotate digest now mv annotations)

  unmarked_key :
      (key : String)
      → (key == continuous_validation_annotation_key) ≡ false
      → Map.get key marked ≡ Map.get key (annotate digest now mv annotations)
  unfolding mark_continuous
  unmarked_key key h = elim (Bool-cases (continuous_enabled mv)) [
    | inl e ↦ rw e (
        Map.get-put_other key continuous_validation_annotation_key "true"
          (annotate digest now mv annotations) h)
    | inr e ↦ rw e refl
  ]

  abbrev method_marked : Map String String
  method_marked =
      Map.put auth_method_annotation_key (get_auth_method mv)
        (Map.put injected_annotation_key now annotations)

  marked_hash : Map.get config_hash_annotation_key marked ≡ some (get_config_hash digest mv)
  unfolding annotate string_eq
  marked_hash =
      unmarked_key config_hash_annotation_key refl
      ∙ Map.get-put_same config_hash_annotation_key (get_config_hash digest mv) method_marked

  marked_method : Map.get auth_method_annotation_key marked ≡ some (get_auth_method mv)
  unfolding annotate string_eq
  marked_method =
      unmarked_key auth_method_annotation_key refl
      ∙ Map.get-put_other auth_method_annotation_key config_hash_annotation_key
          (get_config_hash digest mv) method_marked refl
      ∙ Map.get-put_same auth_method_annotation_key (get_auth_method mv)
          (Map.put injected_annotation_key now annotations)

pub text_at_of :
    {v : String} (key : String) (texts : Map String String)
    → Map.get key texts ≡ some v
    → text_at key texts ≡ v
text_at_of key texts h = rw (h, text_at) refl

not_drifted :
    (hash method : String) (p : PodInfo)
    → p.config_hash ≡ hash
    → p.auth_method ≡ method
    → is_drifted hash method p ≡ false
unfolding is_drifted
not_drifted hash method p h k = ground arith

-- What a labelled pod is filed as under the resource that it names.
process_pod_event_observed :
    (F : Finalizers) (q : Pod) (mv : ModelValidation) (info : ModelValidationInfo)
    (st : StatusTracker)
    → IsConsistent st
    → text_at model_validation_label q.labels ≡ mv.name
    → mv.name ≢ ""
    → q.namespace ≡ mv.namespace
    → Map.get (mv_key mv) st.model_validations ≡ some info
    → view_at (mv_key mv) q.uid (process_pod_event F q st) ≡ some (classify F q info, pod_info_of q)
process_pod_event_observed F q mv info st c label nonempty same tracked =
    view_at-process_pod_event F (mv_key mv) q.uid q st c ∙ rw (label, same, tracked) (ground arith)

module _ (digest : String → String) (matches : Matcher) (F : Finalizers) (lawful : IsLawful F)
    (now : String) (listed : Option (List TelemetryConfig)) (native : Bool) (pod : Pod)
    (ns : Namespace) (mv : ModelValidation) where
  abbrev pub admitted : Pod
  admitted = inject digest matches F now listed native pod ns mv

  in_finalizers : F.contains model_validation_finalizer admitted.finalizers ≡ true
  unfolding inject
  in_finalizers = lawful.contains-add model_validation_finalizer pod.finalizers

  in_hash : (pod_info_of admitted).config_hash ≡ get_config_hash digest mv
  unfolding inject
  in_hash =
      text_at_of config_hash_annotation_key admitted.annotations
        (marked_hash digest now mv pod.annotations)

  in_method : (pod_info_of admitted).auth_method ≡ get_auth_method mv
  unfolding inject
  in_method =
      text_at_of auth_method_annotation_key admitted.annotations
        (marked_method digest now mv pod.annotations)

  inject-classify :
      (info : ModelValidationInfo)
      → info.config_hash ≡ get_config_hash digest mv
      → info.auth_method ≡ get_auth_method mv
      → classify F admitted info ≡ injected
  inject-classify info h k =
      rw
        (
          in_finalizers,
          not_drifted info.config_hash info.auth_method (pod_info_of admitted) (in_hash ∙ sym h)
              (in_method ∙ sym k),
        )
        refl

  -- A pod that the webhook extended for a resource is filed as injected under it by the tracker,
  -- when the pod's event arrives while the resource is tracked with the same configuration.
  pub process_pod_event-inject :
      (info : ModelValidationInfo) (st : StatusTracker)
      → IsConsistent st
      → Map.get model_validation_label pod.labels ≡ some mv.name
      → mv.name ≢ ""
      → pod.namespace ≡ mv.namespace
      → Map.get (mv_key mv) st.model_validations ≡ some info
      → info.config_hash ≡ get_config_hash digest mv
      → info.auth_method ≡ get_auth_method mv
      → view_at (mv_key mv) pod.uid (process_pod_event F admitted st)
        ≡ some (injected, pod_info_of admitted)
  unfolding inject
  process_pod_event-inject info st c label nonempty same tracked h k =
      process_pod_event_observed F admitted mv info st c
        (text_at_of model_validation_label pod.labels label) nonempty same tracked
      ∙ rw (inject-classify info h k) refl
