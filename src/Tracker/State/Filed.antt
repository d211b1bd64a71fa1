-- ===== src/Tracker/State/Filed.antt =====
-- internal/tracker/status_tracker.go: the part of the tracker's invariant that also a status update
-- keeps that finds its resource deleted: each resource is tracked once, and each is well formed.
use model_validation_operato.Base.{
  ◌≡◌, refl, String, some, List, [], ◌∷◌, inl, inr, NamespacedName, key_eq, string_eq, nat_eq, ◌==◌,
  ◌!=◌, Option-cases, Bool-cases,
}
use model_validation_operato.Base.Map
use model_validation_operato.Base.Map.{Map}
use model_validation_operato.Constants.{model_validation_label}
use model_validation_operato.Kube.{Pod, Finalizers}
use model_validation_operato.Api.{ModelValidation}
use model_validation_operato.Api.Hash.{get_config_hash}
use model_validation_operato.Api.Method.{get_auth_method}
use model_validation_operato.Tracker.Info.{ModelValidationInfo}
use model_validation_operato.Tracker.Info.View.{IsWellFormed}
use model_validation_operato.Tracker.Info.Drift.{update_config-IsWellFormed}
use model_validation_operato.Tracker.Mapping.{get_uid_by_name}
use model_validation_operato.Tracker.State.{
  StatusTracker, new_status_tracker, add_model_validation, remove_model_validation, start_tracking,
  update_tracking, mv_key, text_at, process_for, process_pod_event, process_pod_event_common,
  process_seed_pod_event, process_seed_pods, remove_pod_event, remove_pod_by_name,
}
use model_validation_operato.Tracker.State.Removal.{remove_pod_everywhere-NodupKeys}
use model_validation_operato.Tracker.State.Consistent.{new-IsWellFormed, put-infos}
use model_validation_operato.Tracker.State.Invariant.{
  file_pod-IsWellFormed, remove_everywhere-infos,
}

pub record IsFiled (st : StatusTracker) : Type 0 where
  pub nodup : Map.NodupKeys st.model_validations
  pub infos :
      (key : NamespacedName) (info : ModelValidationInfo)
      → Map.get key st.model_validations ≡ some info
      → IsWellFormed info

pub IsFiled-new : IsFiled new_status_tracker
unfolding new_status_tracker Map.get
IsFiled-new = record { nodup = tt; infos = λ key info h. cc }

-- The maps decide.
pub IsFiled-same :
    (st st' : StatusTracker)
    → st'.model_validations ≡ st.model_validations
    → IsFiled st
    → IsFiled st'
IsFiled-same st st' e f = record { nodup = rw e f.nodup; infos = rw e f.infos }

-- A well-formed resource is put, or a resource is removed.
pub IsFiled-put :
    (key : NamespacedName) (info : ModelValidationInfo) (st st' : StatusTracker)
    → st'.model_validations ≡ Map.put key info st.model_validations
    → IsWellFormed info
    → IsFiled st
    → IsFiled st'
IsFiled-put key info st st' e w f = record {
  nodup = rw e (Map.put-NodupKeys key info st.model_validations f.nodup);
  infos = rw e (put-infos key info st.model_validations f.infos w);
}

pub IsFiled-delete :
    (key : NamespacedName) (st st' : StatusTracker)
    → st'.model_validations ≡ Map.delete key st.model_validations
    → IsFiled st
    → IsFiled st'
IsFiled-delete key st st' e f = record {
  nodup = rw e (Map.delete-NodupKeys key st.model_validations f.nodup);
  infos = rw e (λ j i h. f.infos j i (Map.get_of_delete j key i st.model_validations h));
}

pub add_model_validation-IsFiled :
    (digest : String → String) (mv : ModelValidation) (st : StatusTracker)
    → IsFiled st
    → IsFiled (add_model_validation digest mv st)
unfolding add_model_validation start_tracking update_tracking
add_model_validation-IsFiled digest mv st f =
    let h = get_config_hash digest mv in
    let a = get_auth_method mv in
    elim (Option-cases (Map.get (mv_key mv) st.model_validations)) [
      | inl e ↦
          rw e (IsFiled-put (mv_key mv) _ st _ refl (new-IsWellFormed mv.name h a mv.generation) f)
      | inr (info, e) ↦ rw e (elim (Bool-cases (mv.generation != info.observed_generation)) [
        | inl g ↦ rw g (
            IsFiled-put (mv_key mv) _ st _ refl
              (update_config-IsWellFormed h a mv.generation info (f.infos (mv_key mv) info e)) f)
        | inr g ↦ rw g (IsFiled-same st _ refl f)
      ])
    ]

pub remove_model_validation-IsFiled :
    (key : NamespacedName) (st : StatusTracker)
    → IsFiled st
    → IsFiled (remove_model_validation key st)
unfolding remove_model_validation
remove_model_validation-IsFiled key st f = elim (Option-cases (Map.get key st.model_validations)) [
  | inl e ↦ rw (e, remove_model_validation) f
  | inr (info, e) ↦ rw (e, remove_model_validation) (IsFiled-delete key st _ refl f)
]

module _ (F : Finalizers) where
  process_for-IsFiled :
      (pod : Pod) (key : NamespacedName) (st : StatusTracker)
      → IsFiled st
      → IsFiled (process_for F pod key st)
  unfolding process_for process_pod_event_common
  process_for-IsFiled pod key st f = elim (Option-cases (Map.get key st.model_validations)) [
    | inl e ↦ rw (e, process_for) f
    | inr (info, e) ↦
        rw (e, process_for)
          (IsFiled-put key _ st _ refl (file_pod-IsWellFormed F pod info (f.infos key info e)) f)
  ]

  pub process_pod_event-IsFiled :
      (pod : Pod) (st : StatusTracker) → IsFiled st → IsFiled (process_pod_event F pod st)
  unfolding process_pod_event
  process_pod_event-IsFiled pod st f =
      elim (Bool-cases (text_at model_validation_label pod.labels == "")) [
        | inl e ↦ rw e f
        | inr e ↦ rw e (process_for-IsFiled pod _ st f)
      ]

  pub process_seed_pods-IsFiled :
      (pods : List Pod) (key : NamespacedName) (st : StatusTracker)
      → IsFiled st
      → IsFiled (process_seed_pods F pods key st)
  unfolding process_seed_pods process_seed_pod_event
  process_seed_pods-IsFiled [] key st f = f
  process_seed_pods-IsFiled (pod ∷ pods) key st f =
      process_seed_pods-IsFiled pods key (process_seed_pod_event F pod key st)
        (elim (Bool-cases (text_at model_validation_label pod.labels == "")) [
          | inl e ↦ rw e f
          | inr e ↦ rw e (process_for-IsFiled pod key st f)
        ])

pub remove_pod_event-IsFiled :
    (uid : String) (st : StatusTracker) → IsFiled st → IsFiled (remove_pod_event uid st)
unfolding remove_pod_event
remove_pod_event-IsFiled uid st f = record {
  nodup = remove_pod_everywhere-NodupKeys uid st.model_validations f.nodup;
  infos = remove_everywhere-infos uid st.model_validations f.infos;
}

pub remove_pod_by_name-IsFiled :
    (name : NamespacedName) (st : StatusTracker) → IsFiled st → IsFiled (remove_pod_by_name name st)
unfolding remove_pod_by_name
remove_pod_by_name-IsFiled name st f = elim (Option-cases (get_uid_by_name name st.pod_mapping)) [
  | inl e ↦ rw (e, remove_pod_by_name) f
  | inr (uid, e) ↦
      rw (e, remove_pod_by_name)
        (IsFiled-same (remove_pod_event uid st) _ refl (remove_pod_event-IsFiled uid st f))
]
