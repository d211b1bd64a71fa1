-- ===== src/Tracker/State/Seeding.antt =====
-- internal/tracker/status_tracker.go, seedExistingPods: what the pods that the API server lists for
-- a new resource come to, when they have been filed one after the other.
use model_validation_operato.Base.{
  ◌≡◌, ◌∙◌, refl, ℕ, String, Bool, Option, none, some, List, [], ◌∷◌, arith, NamespacedName, key_eq,
  nat_eq, string_eq, ◌==◌, ◌!=◌, ◌&&◌, if◌then◌else◌, inl, inr, Option-cases,
}
use model_validation_operato.Base.Map
use model_validation_operato.Constants.{model_validation_label}
use model_validation_operato.Kube.{Pod, Finalizers}
use model_validation_operato.Tracker.Info.{
  ModelValidationInfo, PodInfo, remove_pod, assign, move_pod_to_state, add_injected_pod,
  add_uninjected_pod, TargetMap, injected_map, uninjected_map, orphaned_map,
}
use model_validation_operato.Api.{ModelValidation}
use model_validation_operato.Tracker.State.{
  add_model_validation, start_tracking, info_of, mv_key, StatusTracker, pod_info_of, text_at,
  process_for, file_pod, process_pod_event_common, process_pod_event, process_seed_pod_event,
  process_seed_pods,
}
use model_validation_operato.Tracker.Info.View.{View}
use model_validation_operato.Tracker.State.Consistent.{IsConsistent}
use model_validation_operato.Tracker.State.Invariant.{process_seed_pod_event-IsConsistent}
use model_validation_operato.Tracker.State.Views.{named_by, view_at, observe, view_at-process_for}

abbrev pub is_labelled : Pod → Bool
is_labelled pod = text_at model_validation_label pod.labels != ""

-- The last of the listed pods that has the UID and a label.
abbrev pub last_seen : String → List Pod → Option Pod
last_seen u [] = none
last_seen u (pod ∷ pods) = elim (last_seen u pods) [
  | some p ↦ some p
  | none ↦ if is_labelled pod && u == pod.uid then some pod else none
]

-- The configuration under which a resource is tracked, with its generation.
abbrev pub config_of : Option ModelValidationInfo → Option (String × String × ℕ)
config_of none = none
config_of (some info) = some (info.config_hash, info.auth_method, info.observed_generation)

config_of-assign :
    (t : TargetMap) (p : PodInfo) (m : ModelValidationInfo)
    → config_of (some (assign t p (remove_pod p.uid m).0)) ≡ config_of (some m)
unfolding assign remove_pod Map.has
config_of-assign injected_map p m = ground arith
config_of-assign uninjected_map p m = ground arith
config_of-assign orphaned_map p m = ground arith

module _ (F : Finalizers) where
  pub config_of-file_pod :
      (pod : Pod) (m : ModelValidationInfo)
      → config_of (some (file_pod F pod m).0) ≡ config_of (some m)
  unfolding file_pod add_injected_pod add_uninjected_pod move_pod_to_state
  config_of-file_pod pod m =
      let p = pod_info_of pod in
      ground (
        arith,
        config_of-assign injected_map p m,
        config_of-assign uninjected_map p m,
        config_of-assign orphaned_map p m,
      )

  config_of-process_for :
      (pod : Pod) (key : NamespacedName) (st : StatusTracker)
      → config_of (Map.get key (process_for F pod key st).model_validations)
        ≡ config_of (Map.get key st.model_validations)
  unfolding process_for process_pod_event_common
  config_of-process_for pod key st = elim (Option-cases (Map.get key st.model_validations)) [
    | inl e ↦ ground arith
    | inr (info, e) ↦ ground (
      arith,
      Map.get-put_same key (file_pod F pod info).0 st.model_validations,
      config_of-file_pod pod info,
    )
  ]

  observe_config :
      (pod : Pod) (o o' : Option ModelValidationInfo)
      → config_of o ≡ config_of o'
      → observe F pod o ≡ observe F pod o'
  observe_config pod none none h = refl
  observe_config pod none (some m) h = cc
  observe_config pod (some m) none h = cc
  observe_config pod (some m) (some m') h = ground arith

  pub config_of-process_pod_event :
      (pod : Pod) (st : StatusTracker)
      → config_of (Map.get (named_by pod) (process_pod_event F pod st).model_validations)
        ≡ config_of (Map.get (named_by pod) st.model_validations)
  unfolding process_pod_event
  config_of-process_pod_event pod st = ground (arith, config_of-process_for pod (named_by pod) st)

  config_of-process_seed_pod_event :
      (pod : Pod) (key : NamespacedName) (st : StatusTracker)
      → config_of (Map.get key (process_seed_pod_event F pod key st).model_validations)
        ≡ config_of (Map.get key st.model_validations)
  unfolding process_seed_pod_event
  config_of-process_seed_pod_event pod key st = ground (arith, config_of-process_for pod key st)

  view_at-process_seed_pod_event :
      (key j : NamespacedName) (u : String) (pod : Pod) (st : StatusTracker)
      → IsConsistent st
      → view_at j u (process_seed_pod_event F pod key st) ≡ (
          if is_labelled pod && (j == key && u == pod.uid)
          then observe F pod (Map.get key st.model_validations)
          else view_at j u st)
  unfolding process_seed_pod_event
  view_at-process_seed_pod_event key j u pod st c =
      ground (arith, view_at-process_for F key j u pod st c)

  -- What the last listed pod with a UID comes to.
  abbrev pub seeded : Option Pod → NamespacedName → NamespacedName → String → StatusTracker → View
  seeded none j key u st = view_at j u st
  seeded (some p) j key u st =
      if j == key then observe F p (Map.get key st.model_validations) else view_at j u st

  -- When the pods that the API server lists for a resource have been filed, each UID has the state
  -- that the finalizer and the annotations of the last labelled pod with that UID ask for, under the
  -- configuration of the resource; UIDs that are not listed, and other resources, keep their states.
  pub view_at-process_seed_pods :
      (j : NamespacedName) (u : String) (pods : List Pod) (key : NamespacedName)
      (st : StatusTracker)
      → IsConsistent st
      → view_at j u (process_seed_pods F pods key st) ≡ seeded (last_seen u pods) j key u st
  unfolding process_seed_pods
  view_at-process_seed_pods j u [] key st c = refl
  view_at-process_seed_pods j u (pod ∷ pods) key st c =
      let st' = process_seed_pod_event F pod key st in
      let rest =
        view_at-process_seed_pods j u pods key st'
          (process_seed_pod_event-IsConsistent F pod key st c) in
      let one = view_at-process_seed_pod_event key j u pod st c in
      elim (Option-cases (last_seen u pods)) [
        | inl e ↦ ground (arith, rest, one)
        | inr (p, e) ↦ ground (
          arith,
          rest,
          one,
          observe_config p (Map.get key st'.model_validations) (Map.get key st.model_validations)
              (config_of-process_seed_pod_event pod key st),
        )
      ]

  pub config_of-process_seed_pods :
      (pods : List Pod) (key : NamespacedName) (st : StatusTracker)
      → config_of (Map.get key (process_seed_pods F pods key st).model_validations)
        ≡ config_of (Map.get key st.model_validations)
  unfolding process_seed_pods
  config_of-process_seed_pods [] key st = refl
  config_of-process_seed_pods (pod ∷ pods) key st =
      config_of-process_seed_pods pods key (process_seed_pod_event F pod key st)
      ∙ config_of-process_seed_pod_event pod key st

-- A resource that was not tracked is tracked with its own configuration.
pub get-add_model_validation_new :
    (digest : String → String) (mv : ModelValidation) (st : StatusTracker)
    → Map.get (mv_key mv) st.model_validations ≡ none
    → Map.get (mv_key mv) (add_model_validation digest mv st).model_validations
      ≡ some (info_of digest mv)
unfolding add_model_validation start_tracking
get-add_model_validation_new digest mv st h =
    ground (arith, Map.get-put_same (mv_key mv) (info_of digest mv) st.model_validations)
