-- ===== src/Tracker/State/Invariant.antt =====
-- internal/tracker/status_tracker.go: what every operation of the tracker keeps.
use model_validation_operato.Base.{
  ◌≡◌, String, some, none, List, [], ◌∷◌, arith, NamespacedName, key_eq, nat_eq, inl, inr,
  Option-cases, Bool-cases, subst, ◌!=◌, ◌==◌, string_eq,
}
use model_validation_operato.Base.Map
use model_validation_operato.Base.Map.{Map}
use model_validation_operato.Constants.{model_validation_finalizer, model_validation_label}
use model_validation_operato.Kube.{Pod, Finalizers}
use model_validation_operato.Api.{ModelValidation}
use model_validation_operato.Api.Method.{get_auth_method}
use model_validation_operato.Api.Hash.{get_config_hash}
use model_validation_operato.Tracker.Info.{
  remove_pod, ModelValidationInfo, new_model_validation_info,
}
use model_validation_operato.Tracker.Info.View.{IsWellFormed, remove_pod-IsWellFormed}
use model_validation_operato.Tracker.Info.Moves.{
  add_injected_pod-IsWellFormed, add_uninjected_pod-IsWellFormed,
}
use model_validation_operato.Tracker.Info.Drift.{update_config-IsWellFormed}
use model_validation_operato.Tracker.State.{
  StatusTracker, start_tracking, update_tracking, add_model_validation, remove_model_validation,
  mv_key, text_at, file_pod, pod_info_of, process_pod_event_common, process_for, process_pod_event,
  process_seed_pod_event, process_seed_pods, remove_pod_event, remove_pod_by_name,
  remove_pod_everywhere,
}
use model_validation_operato.Tracker.State.Counts.{
  put_new-CountsMatch, put_old-CountsMatch, delete-CountsMatch,
}
use model_validation_operato.Tracker.State.Removal.{
  get-remove_pod_everywhere, remove_pod_everywhere-NodupKeys, count_in-remove_pod_everywhere,
}
use model_validation_operato.Tracker.Mapping.{get_uid_by_name}
use model_validation_operato.Tracker.State.Consistent.{
  IsConsistent, enqueue-IsConsistent, new-IsWellFormed, put-infos,
}

module _ (digest : String → String) where
  abbrev current : ModelValidation → ModelValidationInfo
  current mv =
      new_model_validation_info mv.name (get_config_hash digest mv) (get_auth_method mv)
        mv.generation

  start_tracking-IsConsistent :
      (mv : ModelValidation) (st : StatusTracker)
      → IsConsistent st
      → Map.get (mv_key mv) st.model_validations ≡ none
      → IsConsistent (start_tracking digest mv st)
  unfolding start_tracking
  start_tracking-IsConsistent mv st c e = record {
    nodup = Map.put-NodupKeys (mv_key mv) _ st.model_validations c.nodup;
    infos =
        put-infos (mv_key mv) (current mv) st.model_validations c.infos
          (new-IsWellFormed mv.name (get_config_hash digest mv) (get_auth_method mv) mv.generation);
    counts = put_new-CountsMatch (mv_key mv) st.model_validations st.mv_namespaces c.counts _ e;
  }

  update_tracking-IsConsistent :
      (mv : ModelValidation) (info : ModelValidationInfo) (st : StatusTracker)
      → IsConsistent st
      → Map.get (mv_key mv) st.model_validations ≡ some info
      → IsConsistent (update_tracking digest mv info st)
  unfolding update_tracking
  update_tracking-IsConsistent mv info st c e = record {
    nodup = Map.put-NodupKeys (mv_key mv) _ st.model_validations c.nodup;
    infos = put-infos (mv_key mv) _ st.model_validations c.infos (
        update_config-IsWellFormed (get_config_hash digest mv) (get_auth_method mv) mv.generation
          info (c.infos (mv_key mv) info e));
    counts =
        put_old-CountsMatch (mv_key mv) st.model_validations st.mv_namespaces c.counts _
          (rw e (λ h. cc));
  }

  pub add_model_validation-IsConsistent :
      (mv : ModelValidation) (st : StatusTracker)
      → IsConsistent st
      → IsConsistent (add_model_validation digest mv st)
  unfolding add_model_validation
  add_model_validation-IsConsistent mv st c =
      elim (Option-cases (Map.get (mv_key mv) st.model_validations)) [
        | inl e ↦ rw e (enqueue-IsConsistent (mv_key mv) _ (start_tracking-IsConsistent mv st c e))
        | inr (info, e) ↦ rw e (
            enqueue-IsConsistent (mv_key mv) _
              (elim (Bool-cases (mv.generation != info.observed_generation)) [
                | inl f ↦ rw f (update_tracking-IsConsistent mv info st c e)
                | inr f ↦ rw f c
              ]))
      ]

pub remove_model_validation-IsConsistent :
    (key : NamespacedName) (st : StatusTracker)
    → IsConsistent st
    → IsConsistent (remove_model_validation key st)
unfolding remove_model_validation
remove_model_validation-IsConsistent key st c =
    elim (Option-cases (Map.get key st.model_validations)) [
      | inl e ↦ rw (e, remove_model_validation) c
      | inr (info, e) ↦
          rw (e, remove_model_validation)
            (record {
              nodup = Map.delete-NodupKeys key st.model_validations c.nodup;
              infos = λ j i h. c.infos j i (Map.get_of_delete j key i st.model_validations h);
              counts =
                  delete-CountsMatch key st.model_validations st.mv_namespaces c.counts c.nodup
                    (rw e (λ h. cc));
            })
    ]

module _ (F : Finalizers) where
  pub file_pod-IsWellFormed :
      (pod : Pod) (info : ModelValidationInfo)
      → IsWellFormed info
      → IsWellFormed (file_pod F pod info).0
  unfolding file_pod
  file_pod-IsWellFormed pod info w =
      elim (Bool-cases (F.contains model_validation_finalizer pod.finalizers)) [
        | inl e ↦ rw e (add_injected_pod-IsWellFormed (pod_info_of pod) info w)
        | inr e ↦ rw e (add_uninjected_pod-IsWellFormed (pod_info_of pod) info w)
      ]

  process_for-IsConsistent :
      (pod : Pod) (key : NamespacedName) (st : StatusTracker)
      → IsConsistent st
      → IsConsistent (process_for F pod key st)
  unfolding process_for process_pod_event_common
  process_for-IsConsistent pod key st c = elim (Option-cases (Map.get key st.model_validations)) [
    | inl e ↦ rw (e, process_for) c
    | inr (info, e) ↦
        rw (e, process_for)
          (record {
            nodup = Map.put-NodupKeys key _ st.model_validations c.nodup;
            infos =
                put-infos key _ st.model_validations c.infos
                  (file_pod-IsWellFormed pod info (c.infos key info e));
            counts =
                put_old-CountsMatch key st.model_validations st.mv_namespaces c.counts _
                  (rw e (λ h. cc));
          })
  ]

  pub process_pod_event-IsConsistent :
      (pod : Pod) (st : StatusTracker) → IsConsistent st → IsConsistent (process_pod_event F pod st)
  unfolding process_pod_event
  process_pod_event-IsConsistent pod st c =
      elim (Bool-cases (text_at model_validation_label pod.labels == "")) [
        | inl e ↦ rw e c
        | inr e ↦ rw e (process_for-IsConsistent pod _ st c)
      ]

  pub process_seed_pod_event-IsConsistent :
      (pod : Pod) (key : NamespacedName) (st : StatusTracker)
      → IsConsistent st
      → IsConsistent (process_seed_pod_event F pod key st)
  unfolding process_seed_pod_event
  process_seed_pod_event-IsConsistent pod key st c =
      elim (Bool-cases (text_at model_validation_label pod.labels == "")) [
        | inl e ↦ rw e c
        | inr e ↦ rw e (process_for-IsConsistent pod key st c)
      ]

  pub process_seed_pods-IsConsistent :
      (pods : List Pod) (key : NamespacedName) (st : StatusTracker)
      → IsConsistent st
      → IsConsistent (process_seed_pods F pods key st)
  unfolding process_seed_pods
  process_seed_pods-IsConsistent [] key st c = c
  process_seed_pods-IsConsistent (pod ∷ pods) key st c =
      process_seed_pods-IsConsistent pods key (process_seed_pod_event F pod key st)
        (process_seed_pod_event-IsConsistent pod key st c)

pub remove_everywhere-infos :
    (uid : String) (mvs : Map NamespacedName ModelValidationInfo)
    → ((j : NamespacedName) (i : ModelValidationInfo) → Map.get j mvs ≡ some i → IsWellFormed i)
    → (j : NamespacedName) (i : ModelValidationInfo)
    → Map.get j (remove_pod_everywhere uid mvs).0 ≡ some i
    → IsWellFormed i
remove_everywhere-infos uid mvs h j i e = elim (Option-cases (Map.get j mvs)) [
  | inl f ↦ absurd (ground (arith, get-remove_pod_everywhere j uid mvs))
  | inr (k, f) ↦
      let q : (remove_pod uid k).0 ≡ i = ground (arith, get-remove_pod_everywhere j uid mvs) in
      subst IsWellFormed q (remove_pod-IsWellFormed uid k (h j k f))
]

pub remove_pod_event-IsConsistent :
    (uid : String) (st : StatusTracker) → IsConsistent st → IsConsistent (remove_pod_event uid st)
unfolding remove_pod_event
remove_pod_event-IsConsistent uid st c = record {
  nodup = remove_pod_everywhere-NodupKeys uid st.model_validations c.nodup;
  infos = remove_everywhere-infos uid st.model_validations c.infos;
  counts = record {
    counted = λ ns.
        ground
          (arith, c.counts.counted ns, count_in-remove_pod_everywhere ns uid st.model_validations);
    positive = c.counts.positive;
  };
}

pub remove_pod_by_name-IsConsistent :
    (name : NamespacedName) (st : StatusTracker)
    → IsConsistent st
    → IsConsistent (remove_pod_by_name name st)
unfolding remove_pod_by_name
remove_pod_by_name-IsConsistent name st c =
    elim (Option-cases (get_uid_by_name name st.pod_mapping)) [
      | inl e ↦ rw (e, remove_pod_by_name) c
      | inr (uid, e) ↦
          let d = remove_pod_event-IsConsistent uid st c in
          rw (e, remove_pod_by_name)
            (record { nodup = d.nodup; infos = d.infos; counts = d.counts })
    ]
