-- ===== src/Tests/Tracking.antt =====
-- internal/tracker at concrete events.
use model_validation_operato.Base.{◌≡◌, key_eq, string_eq, nat_eq, refl, some, [], ◌∷◌, option_eq}
use model_validation_operato.Tracker.Info.Moves.{}
use model_validation_operato.Tracker.Mapping.Laws.{}
use model_validation_operato.Tracker.State.{
  StatusTracker, new_status_tracker, add_model_validation, process_pod_event,
  remove_model_validation, process_seed_pod_event, pod_info_of, process_pod_event_common,
}
use model_validation_operato.Tracker.State.Invariant.{
  add_model_validation-IsConsistent, process_pod_event-IsConsistent,
}
use model_validation_operato.Tracker.State.Consistent.{IsConsistent, IsConsistent-new}
use model_validation_operato.Tracker.State.Counts.{count_in}
use model_validation_operato.Tracker.State.Gauge.{crs_gauge, Reach-crs_gauge}
use model_validation_operato.Tracker.State.Reach.{
  start, next, mv_added, pod_seen, mv_removed, Reach-IsConsistent,
}
use model_validation_operato.Tracker.State.Views.{named_by, view_at}
use model_validation_operato.Kube.{Pod}
use model_validation_operato.Metrics.{untracked, orphaned, state_eq}
use model_validation_operato.Tracker.Info.{
  ModelValidationInfo, new_model_validation_info, is_drifted, add_injected_pod, move_pod_to_state,
  assign, remove_pod, get_pod_state,
}
use model_validation_operato.Api.Method.{auth_method}
use model_validation_operato.Tracker.State.Spec.{state_in}
use model_validation_operato.Tracker.State.Refines.{known_of}
use model_validation_operato.Tracker.State.Runs
use model_validation_operato.Tracker.State.Races
use model_validation_operato.Tracker.State.Races.{seeding_revives}
use model_validation_operato.Base.Map
use model_validation_operato.Api.Hash.{get_config_hash}
use model_validation_operato.Constants.{model_validation_label}
use model_validation_operato.Api.{ModelValidation}
use model_validation_operato.Tracker.Info.View.{view}
use model_validation_operato.Tracker.State.Relabelled.{relabelled_stays}
use model_validation_operato.Tests.Samples.{differ, mv, key, drifted, listed, same_text}
use model_validation_operato.Base.{NamespacedName}
use model_validation_operato.Tracker.Mapping.{get_uid_by_name, add_pod, new_pod_mapping}
use model_validation_operato.Tracker.State.{remove_pod_by_name}

abbrev pub tracked : StatusTracker
tracked = add_model_validation same_text mv new_status_tracker

abbrev pub seen : StatusTracker
seen = process_pod_event listed drifted tracked

pub tracked-IsConsistent : IsConsistent tracked
tracked-IsConsistent =
    add_model_validation-IsConsistent same_text mv new_status_tracker IsConsistent-new

pub seen-IsConsistent : IsConsistent seen
seen-IsConsistent = process_pod_event-IsConsistent listed drifted tracked tracked-IsConsistent

Reach-IsConsistent_example : IsConsistent (remove_model_validation key seen)
Reach-IsConsistent_example =
    Reach-IsConsistent same_text listed
      (next (next (next start (mv_added mv)) (pod_seen drifted)) (mv_removed key))

Reach-crs_gauge_example :
    crs_gauge "default" 0 (process_pod_event listed drifted tracked).events
    ≡ count_in "default" (process_pod_event listed drifted tracked).model_validations
Reach-crs_gauge_example =
    Reach-crs_gauge same_text listed "default" (next (next start (mv_added mv)) (pod_seen drifted))

abbrev neighbour : Pod
neighbour = record drifted { name = "neighbour"; uid = "u9" }

abbrev first_info : ModelValidationInfo
first_info = new_model_validation_info "demo" (get_config_hash same_text mv) "public-key" 1

abbrev drifted_name : NamespacedName
drifted_name = record { namespace = "default"; name = "app-1" }

abbrev seen_info : ModelValidationInfo
seen_info = record first_info { orphaned_pods = ("u1", pod_info_of drifted) ∷ [] }

seeding_revives_example :
    let gone = remove_pod_by_name drifted_name seen in
    (state_in key "u1" (known_of gone) ≡ untracked)
    × (state_in key "u1" (known_of (process_seed_pod_event listed drifted key gone)) ≡ orphaned)
unfolding string_eq key_eq Map.get Map.put add_model_validation new_status_tracker
    new_model_validation_info get_config_hash is_drifted auth_method process_pod_event
    process_pod_event_common add_injected_pod move_pod_to_state assign remove_pod Map.has Map.delete
    get_uid_by_name add_pod new_pod_mapping nat_eq
seeding_revives_example =
    seeding_revives same_text listed drifted key seen_info seen seen-IsConsistent
      (differ "demo" "" refl) refl refl

abbrev other_mv : ModelValidation
other_mv = record mv { name = "other" }

abbrev both : StatusTracker
both = add_model_validation same_text other_mv seen

abbrev relabelled : Pod
relabelled = record drifted { labels = (model_validation_label, "other") ∷ [] }

relabelled_stays_example :
    (view_at (named_by relabelled) "u1" (process_pod_event listed relabelled both)
      ≡ some (orphaned, pod_info_of relabelled))
    × (view_at key "u1" (process_pod_event listed relabelled both)
        ≡ some (orphaned, pod_info_of drifted))
unfolding string_eq key_eq nat_eq Map.get Map.put Map.delete Map.has state_eq add_model_validation
    new_status_tracker process_pod_event process_pod_event_common new_model_validation_info
    get_config_hash is_drifted auth_method view add_injected_pod move_pod_to_state assign remove_pod
    get_pod_state
relabelled_stays_example =
    relabelled_stays listed key relabelled
      (new_model_validation_info "other" (get_config_hash same_text other_mv) "public-key" 1)
      orphaned (pod_info_of drifted) both
      (add_model_validation-IsConsistent same_text other_mv seen seen-IsConsistent)
      (differ "other" "" refl) (λ e. cc) refl refl
