-- ===== src/Tracker/State/Gauge.antt =====
-- internal/tracker/status_tracker.go with internal/metrics/metrics.go: what the metric of the number
-- of resources shows.
use model_validation_operato.Base.{
  ◌≡◌, ◌∙◌, refl, ℕ, ◌+◌, ◌-◌, String, List, [], ◌∷◌, ◌++◌, arith, NamespacedName, key_eq,
  string_eq, nat_eq, inl, inr, Option-cases, Bool-cases, ◌==◌, ◌!=◌, if◌then◌else◌,
}
use model_validation_operato.Base.Map
use model_validation_operato.Base.Map.{Map}
use model_validation_operato.Metrics.{
  Event, PodState, pod_count, pod_state_transitions, status_update, configuration_drift,
  model_validation_crs, queue_size, retry_attempt, record_pod_state_transition,
  record_multiple_pod_state_transitions, injected, orphaned, uninjected,
}
use model_validation_operato.Constants.{model_validation_label}
use model_validation_operato.Kube.{Pod, Finalizers}
use model_validation_operato.Api.{ModelValidation}
use model_validation_operato.Tracker.Info.{
  PodInfo, ModelValidationInfo, TargetMap, injected_map, orphaned_map, uninjected_map,
  move_pod_to_state, add_injected_pod, add_uninjected_pod,
}
use model_validation_operato.Tracker.State.{
  StatusTracker, new_status_tracker, add_model_validation, start_tracking, update_tracking,
  remove_model_validation, process_pod_event, process_seed_pod_event, process_for, file_pod,
  process_pod_event_common, remove_pod_event, remove_pod_by_name, count_at, decrement, pod_info_of,
  mv_key, text_at,
}
use model_validation_operato.Tracker.State.Counts.{count_in}
use model_validation_operato.Tracker.Mapping.{get_uid_by_name}
use model_validation_operato.Tracker.State.Reach.{
  Step, mv_added, mv_removed, pod_seen, pod_seeded, pod_deleted, pod_gone, Reach, start, next,
  Reach-IsConsistent,
}

-- The gauge of a namespace behind some events: the value that it was last set to, or the one that
-- it had.
unfoldable pub crs_gauge : String → ℕ → List Event → ℕ
crs_gauge ns v [] = v
crs_gauge ns v (model_validation_crs m n ∷ es) = crs_gauge ns (if m == ns then n else v) es
crs_gauge ns v (pod_count _ _ _ _ ∷ es) = crs_gauge ns v es
crs_gauge ns v (pod_state_transitions _ _ _ _ _ ∷ es) = crs_gauge ns v es
crs_gauge ns v (status_update _ _ _ ∷ es) = crs_gauge ns v es
crs_gauge ns v (configuration_drift _ _ _ ∷ es) = crs_gauge ns v es
crs_gauge ns v (queue_size _ ∷ es) = crs_gauge ns v es
crs_gauge ns v (retry_attempt _ _ ∷ es) = crs_gauge ns v es

module _ (ns : String) where
  crs_gauge-append :
      (xs ys : List Event) (v : ℕ) → crs_gauge ns v (xs ++ ys) ≡ crs_gauge ns (crs_gauge ns v xs) ys
  unfolding crs_gauge
  crs_gauge-append [] ys v = refl
  crs_gauge-append (model_validation_crs m n ∷ xs) ys v = crs_gauge-append xs ys _
  crs_gauge-append (pod_count _ _ _ _ ∷ xs) ys v = crs_gauge-append xs ys v
  crs_gauge-append (pod_state_transitions _ _ _ _ _ ∷ xs) ys v = crs_gauge-append xs ys v
  crs_gauge-append (status_update _ _ _ ∷ xs) ys v = crs_gauge-append xs ys v
  crs_gauge-append (configuration_drift _ _ _ ∷ xs) ys v = crs_gauge-append xs ys v
  crs_gauge-append (queue_size _ ∷ xs) ys v = crs_gauge-append xs ys v
  crs_gauge-append (retry_attempt _ _ ∷ xs) ys v = crs_gauge-append xs ys v

  crs_gauge-transitions :
      (v n : ℕ) (namespace mv : String) (from to : PodState)
      → crs_gauge ns v (record_multiple_pod_state_transitions namespace mv from to n) ≡ v
  unfolding crs_gauge record_multiple_pod_state_transitions
  crs_gauge-transitions v n namespace mv from to = ground arith

  crs_gauge-move_pod_to_state :
      (v : ℕ) (p : PodInfo) (s : PodState) (target : TargetMap) (info : ModelValidationInfo)
      → crs_gauge ns v (move_pod_to_state p s target info).1 ≡ v
  unfolding crs_gauge move_pod_to_state record_pod_state_transition
  crs_gauge-move_pod_to_state v p s target info = ground arith

  count_at-decrement :
      (m : String) (counts : Map String ℕ)
      → count_at ns (decrement m counts)
        ≡ (if m == ns then count_at m counts - 1 else count_at ns counts)
  unfolding decrement
  count_at-decrement m counts =
      ground (arith, Map.get-delete ns m counts, Map.get-put ns m (count_at m counts - 1) counts)

  -- The gauge is the tracker's own counter.
  IsShown : StatusTracker → Type 0
  IsShown st = crs_gauge ns 0 st.events ≡ count_at ns st.mv_namespaces

  module _ (digest : String → String) where
    add_model_validation-IsShown :
        (mv : ModelValidation) (st : StatusTracker)
        → IsShown st
        → IsShown (add_model_validation digest mv st)
    unfolding add_model_validation start_tracking update_tracking IsShown crs_gauge
    add_model_validation-IsShown mv st h =
        elim (Option-cases (Map.get (mv_key mv) st.model_validations)) [
          | inl e ↦ rw e (
              crs_gauge-append st.events _ 0
              ∙ ground (
                arith,
                Map.get-put ns mv.namespace (count_at mv.namespace st.mv_namespaces + 1)
                    st.mv_namespaces,
              ))
          | inr (info, e) ↦ elim (Bool-cases (mv.generation != info.observed_generation)) [
            | inr f ↦ rw (e, f) h
            | inl f ↦
                rw (e, f)
                  (crs_gauge-append st.events _ 0
                    ∙ crs_gauge-transitions (crs_gauge ns 0 st.events) _ mv.namespace mv.name
                        injected orphaned
                    ∙ h)
          ]
        ]

  remove_model_validation-IsShown :
      (key : NamespacedName) (st : StatusTracker)
      → IsShown st
      → IsShown (remove_model_validation key st)
  unfolding remove_model_validation IsShown crs_gauge
  remove_model_validation-IsShown key st h =
      elim (Option-cases (Map.get key st.model_validations)) [
        | inl e ↦ rw (e, remove_model_validation) h
        | inr (info, e) ↦
            rw (e, remove_model_validation)
              (crs_gauge-append st.events _ 0
                ∙ ground (arith, count_at-decrement key.namespace st.mv_namespaces))
      ]

  module _ (F : Finalizers) where
    crs_gauge-file_pod :
        (v : ℕ) (pod : Pod) (info : ModelValidationInfo)
        → crs_gauge ns v (file_pod F pod info).1 ≡ v
    unfolding file_pod add_injected_pod add_uninjected_pod
    crs_gauge-file_pod v pod info = ground (
      arith,
      crs_gauge-move_pod_to_state v (pod_info_of pod) injected injected_map info,
      crs_gauge-move_pod_to_state v (pod_info_of pod) orphaned orphaned_map info,
      crs_gauge-move_pod_to_state v (pod_info_of pod) uninjected uninjected_map info,
    )

    process_for-IsShown :
        (pod : Pod) (key : NamespacedName) (st : StatusTracker)
        → IsShown st
        → IsShown (process_for F pod key st)
    unfolding process_for process_pod_event_common IsShown
    process_for-IsShown pod key st h = elim (Option-cases (Map.get key st.model_validations)) [
      | inl e ↦ rw (e, process_for) h
      | inr (info, e) ↦
          rw (e, process_for)
            (crs_gauge-append st.events (file_pod F pod info).1 0
              ∙ crs_gauge-file_pod (crs_gauge ns 0 st.events) pod info
              ∙ h)
    ]

    process_pod_event-IsShown :
        (pod : Pod) (st : StatusTracker) → IsShown st → IsShown (process_pod_event F pod st)
    unfolding process_pod_event
    process_pod_event-IsShown pod st h =
        elim (Bool-cases (text_at model_validation_label pod.labels == "")) [
          | inl e ↦ rw e h
          | inr e ↦ rw e (process_for-IsShown pod _ st h)
        ]

    process_seed_pod_event-IsShown :
        (pod : Pod) (key : NamespacedName) (st : StatusTracker)
        → IsShown st
        → IsShown (process_seed_pod_event F pod key st)
    unfolding process_seed_pod_event
    process_seed_pod_event-IsShown pod key st h =
        elim (Bool-cases (text_at model_validation_label pod.labels == "")) [
          | inl e ↦ rw e h
          | inr e ↦ rw e (process_for-IsShown pod key st h)
        ]

    remove_pod_by_name-IsShown :
        (name : NamespacedName) (st : StatusTracker)
        → IsShown st
        → IsShown (remove_pod_by_name name st)
    unfolding remove_pod_by_name remove_pod_event IsShown
    remove_pod_by_name-IsShown name st h =
        elim (Option-cases (get_uid_by_name name st.pod_mapping)) [
          | inl e ↦ rw (e, remove_pod_by_name) h
          | inr (uid, e) ↦ rw (e, remove_pod_by_name) h
        ]

module _ (digest : String → String) (F : Finalizers) where
  Step-IsShown :
      (ns : String) {st st' : StatusTracker} → Step digest F st st' → IsShown ns st → IsShown ns st'
  unfolding remove_pod_event IsShown
  Step-IsShown ns {st} (mv_added mv) h = add_model_validation-IsShown ns digest mv st h
  Step-IsShown ns {st} (mv_removed key) h = remove_model_validation-IsShown ns key st h
  Step-IsShown ns {st} (pod_seen pod) h = process_pod_event-IsShown ns F pod st h
  Step-IsShown ns {st} (pod_seeded pod key) h = process_seed_pod_event-IsShown ns F pod key st h
  Step-IsShown ns {st} (pod_deleted uid) h = h
  Step-IsShown ns {st} (pod_gone name) h = remove_pod_by_name-IsShown ns F name st h

  Reach-IsShown : (ns : String) {st : StatusTracker} → Reach digest F st → IsShown ns st
  unfolding new_status_tracker IsShown crs_gauge Map.get
  Reach-IsShown ns start = refl
  Reach-IsShown ns (next r s) = Step-IsShown ns s (Reach-IsShown ns r)

  -- In every state that the events of pods and resources can reach, with no status update that finds
  -- its resource deleted, the metric of the number of resources shows for every namespace the number
  -- of the resources that are tracked there.
  pub Reach-crs_gauge :
      (ns : String) {st : StatusTracker}
      → Reach digest F st
      → crs_gauge ns 0 st.events ≡ count_in ns st.model_validations
  unfolding IsShown
  Reach-crs_gauge ns r = Reach-IsShown ns r ∙ (Reach-IsConsistent digest F r).counts.counted ns
