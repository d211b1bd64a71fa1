-- ===== src/Tracker/State/Views.antt =====
-- internal/tracker/status_tracker.go as its clients see it: the state of each pod under each
-- resource, and how every operation changes it.
use model_validation_operato.Base.{
  ◌≡◌, refl, String, Option, some, none, arith, NamespacedName, key_eq, nat_eq, inl, inr,
  Option-cases, Bool-cases, ◌!=◌, ◌==◌, ◌&&◌, string_eq, if◌then◌else◌, option_eq, ℕ,
}
use model_validation_operato.Base.Map
use model_validation_operato.Constants.{model_validation_finalizer, model_validation_label}
use model_validation_operato.Kube.{Pod, Finalizers}
use model_validation_operato.Api.{ModelValidation}
use model_validation_operato.Api.Method.{get_auth_method}
use model_validation_operato.Api.Hash.{get_config_hash}
use model_validation_operato.Metrics.{PodState, injected, uninjected, orphaned}
use model_validation_operato.Tracker.Info.{
  ModelValidationInfo, is_drifted, new_model_validation_info, update_config,
}
use model_validation_operato.Tracker.Info.View.{View, view, view-remove_pod, IsWellFormed}
use model_validation_operato.Tracker.Info.Moves.{add_injected_pod_lem, add_uninjected_pod_lem}
use model_validation_operato.Tracker.Info.Drift.{reclassify, update_config_lem}
use model_validation_operato.Tracker.Mapping.{get_uid_by_name}
use model_validation_operato.Tracker.State.{
  StatusTracker, add_model_validation, file_pod, remove_model_validation, mv_key, text_at,
  process_for, pod_info_of, process_pod_event, process_pod_event_common, remove_pod_event,
  remove_pod_by_name, start_tracking, update_tracking,
}
use model_validation_operato.Tracker.State.Removal.{get-remove_pod_everywhere}
use model_validation_operato.Tracker.State.Consistent.{IsConsistent}

abbrev pub view_in : String → Option ModelValidationInfo → View
view_in u none = none
view_in u (some info) = view u info

-- The state and the record that the tracker has of a pod under a resource.
abbrev pub view_at : NamespacedName → String → StatusTracker → View
view_at key u st = view_in u (Map.get key st.model_validations)

-- The resource that the pod's label names.
abbrev pub named_by : Pod → NamespacedName
named_by pod = record {
  namespace = pod.namespace;
  name = text_at model_validation_label pod.labels;
}

module _ (F : Finalizers) where
  -- What the code makes of a pod, by its finalizer and its annotations.
  abbrev pub classify : Pod → ModelValidationInfo → PodState
  classify pod info =
      if F.contains model_validation_finalizer pod.finalizers
      then (if is_drifted info.config_hash info.auth_method (pod_info_of pod)
          then orphaned
          else injected)
      else uninjected

  abbrev pub observe : Pod → Option ModelValidationInfo → View
  observe pod none = none
  observe pod (some info) = some (classify pod info, pod_info_of pod)

  pub view-file_pod :
      (u : String) (pod : Pod) (info : ModelValidationInfo)
      → IsWellFormed info
      → view u (file_pod F pod info).0
        ≡ (if u == pod.uid then some (classify pod info, pod_info_of pod) else view u info)
  unfolding file_pod
  view-file_pod u pod info w =
      elim (Bool-cases (F.contains model_validation_finalizer pod.finalizers)) [
        | inl f ↦ rw f (add_injected_pod_lem u (pod_info_of pod) info w).0
        | inr f ↦ rw f (add_uninjected_pod_lem u (pod_info_of pod) info w).0
      ]

  pub view_at-process_for :
      (key j : NamespacedName) (u : String) (pod : Pod) (st : StatusTracker)
      → IsConsistent st
      → view_at j u (process_for F pod key st) ≡ (
          if j == key && u == pod.uid
          then observe pod (Map.get key st.model_validations)
          else view_at j u st)
  unfolding process_for process_pod_event_common
  view_at-process_for key j u pod st c = elim (Option-cases (Map.get key st.model_validations)) [
    | inl e ↦ ground arith
    | inr (info, e) ↦ ground (
      arith,
      view-file_pod u pod info (c.infos key info e),
      Map.get-put j key (file_pod F pod info).0 st.model_validations,
    )
  ]

  -- An event of a labelled pod files the pod, under the resource that its label names in its own
  -- namespace, by its finalizer and its annotations; an event of a pod with no label, or whose
  -- resource is not tracked, files nothing. What is known of every other pod, and of this pod under
  -- every other resource, stays.
  pub view_at-process_pod_event :
      (j : NamespacedName) (u : String) (pod : Pod) (st : StatusTracker)
      → IsConsistent st
      → let name = text_at model_validation_label pod.labels in
        let key : NamespacedName = record { namespace = pod.namespace; name = name } in
        view_at j u (process_pod_event F pod st) ≡ (
          if name != "" && (j == key && u == pod.uid)
          then observe pod (Map.get key st.model_validations)
          else view_at j u st)
  unfolding process_pod_event
  view_at-process_pod_event j u pod st c = ground (
    arith,
    view_at-process_for
        (record { namespace = pod.namespace; name = text_at model_validation_label pod.labels }) j u
        pod st c,
  )

-- When a pod is deleted, no resource keeps it in any state, and every other pod keeps its state
-- under every resource.
pub view_at-remove_pod_event :
    (j : NamespacedName) (u v : String) (st : StatusTracker)
    → IsConsistent st
    → view_at j u (remove_pod_event v st) ≡ (if u == v then none else view_at j u st)
unfolding remove_pod_event
view_at-remove_pod_event j u v st c = elim (Option-cases (Map.get j st.model_validations)) [
  | inl e ↦ ground (arith, get-remove_pod_everywhere j v st.model_validations)
  | inr (info, e) ↦ ground (
    arith,
    get-remove_pod_everywhere j v st.model_validations,
    view-remove_pod u v info (c.infos j info e),
  )
]

-- A pod that is removed by its name is the one whose UID the mapping has for that name; with no
-- UID for the name, nothing changes.
pub view_at-remove_pod_by_name :
    (j : NamespacedName) (u : String) (name : NamespacedName) (st : StatusTracker)
    → IsConsistent st
    → view_at j u (remove_pod_by_name name st)
      ≡ (if get_uid_by_name name st.pod_mapping == some u then none else view_at j u st)
unfolding remove_pod_by_name
view_at-remove_pod_by_name j u name st c =
    elim (Option-cases (get_uid_by_name name st.pod_mapping)) [
      | inl e ↦ ground arith
      | inr (v, e) ↦ ground (arith, view_at-remove_pod_event j u v st c)
    ]

-- A removed resource has no pods any more, and every other resource keeps its pods.
pub view_at-remove_model_validation :
    (j key : NamespacedName) (u : String) (st : StatusTracker)
    → view_at j u (remove_model_validation key st) ≡ (if j == key then none else view_at j u st)
unfolding remove_model_validation
view_at-remove_model_validation j key u st =
    ground (arith, Map.get-delete j key st.model_validations)

module _ (digest : String → String) where
  -- What a resource's event makes of a pod: nothing if the resource is new or its generation was
  -- seen before, and else what the new configuration makes of it.
  abbrev pub refresh : ModelValidation → Option ModelValidationInfo → View → View
  refresh mv none v = none
  refresh mv (some info) v =
      if mv.generation == info.observed_generation
      then v
      else reclassify (get_config_hash digest mv) (get_auth_method mv) v

  view-new : (u n h a : String) (g : ℕ) → view u (new_model_validation_info n h a g) ≡ none
  unfolding view new_model_validation_info Map.get
  view-new u n h a g = refl

  view_at-start_tracking :
      (j : NamespacedName) (u : String) (mv : ModelValidation) (st : StatusTracker)
      → view_at j u (start_tracking digest mv st)
        ≡ (if j == mv_key mv then none else view_at j u st)
  unfolding start_tracking
  view_at-start_tracking j u mv st =
      let h = get_config_hash digest mv in
      let a = get_auth_method mv in
      ground (
        arith,
        Map.get-put j (mv_key mv) (new_model_validation_info mv.name h a mv.generation)
            st.model_validations,
        view-new u mv.name h a mv.generation,
      )

  view_at-update_tracking :
      (j : NamespacedName) (u : String) (mv : ModelValidation) (info : ModelValidationInfo)
      (st : StatusTracker)
      → IsWellFormed info
      → view_at j u (update_tracking digest mv info st) ≡ (
          if j == mv_key mv
          then reclassify (get_config_hash digest mv) (get_auth_method mv) (view u info)
          else view_at j u st)
  unfolding update_tracking
  view_at-update_tracking j u mv info st w =
      let h = get_config_hash digest mv in
      let a = get_auth_method mv in
      let (e, _, _) = update_config_lem h a mv.generation info w u in
      ground (
        arith,
        Map.get-put j (mv_key mv) (update_config h a mv.generation info).0 st.model_validations,
        e,
      )

  -- When a resource is created, no pod is filed under it yet; when its configuration changes, its
  -- injected pods are checked against the new configuration; other resources keep their pods.
  pub view_at-add_model_validation :
      (j : NamespacedName) (u : String) (mv : ModelValidation) (st : StatusTracker)
      → IsConsistent st
      → view_at j u (add_model_validation digest mv st) ≡ (
          if j == mv_key mv
          then refresh mv (Map.get (mv_key mv) st.model_validations) (view_at j u st)
          else view_at j u st)
  unfolding add_model_validation
  view_at-add_model_validation j u mv st c =
      elim (Option-cases (Map.get (mv_key mv) st.model_validations)) [
        | inl e ↦ ground (arith, view_at-start_tracking j u mv st)
        | inr (info, e) ↦
            ground (arith, view_at-update_tracking j u mv info st (c.infos (mv_key mv) info e))
      ]
