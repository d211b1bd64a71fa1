-- ===== src/Tests/Infos.antt =====
-- internal/tracker/model_validation_info.go and pod_mapping.go at concrete pods.
use model_validation_operato.Base.{
  ◌≡◌, refl, none, some, NamespacedName, key_eq, string_eq, nat_eq, false,
}
use model_validation_operato.Base.Map
use model_validation_operato.Metrics.{orphaned, state_eq}
use model_validation_operato.Tracker.Info.{
  ModelValidationInfo, new_model_validation_info, add_injected_pod, update_config, is_drifted,
  PodInfo, move_pod_to_state, assign, get_pod_state, remove_pod,
}
use model_validation_operato.Tracker.Info.View.{IsWellFormed, view}
use model_validation_operato.Tracker.Info.Moves.{add_injected_pod-IsWellFormed}
use model_validation_operato.Tracker.Info.Drift.{update_config_back}
use model_validation_operato.Tracker.Mapping.{
  PodMapping, add_pod, new_pod_mapping, get_uid_by_name, get_name_by_uid, remove_pod_by_uid,
}
use model_validation_operato.Tracker.Mapping.Laws.{add_pod_recreated}
use model_validation_operato.Tests.Samples.{differ}

abbrev p1 : PodInfo
p1 = record {
  name = "app-1";
  namespace = "default";
  uid = "u1";
  timestamp = 7;
  config_hash = "h1";
  auth_method = "public-key";
}

abbrev empty : ModelValidationInfo
empty = new_model_validation_info "demo" "h1" "public-key" 1

empty-IsWellFormed : IsWellFormed empty
unfolding new_model_validation_info Map.get
empty-IsWellFormed = record {
  injected_nodup = tt;
  orphaned_nodup = tt;
  uninjected_nodup = tt;
  of_injected = λ u p h. cc;
  of_orphaned = λ u p h. cc;
  of_uninjected = λ u p h. cc;
}

abbrev one : ModelValidationInfo
one = (add_injected_pod p1 empty).0

one-IsWellFormed : IsWellFormed one
one-IsWellFormed = add_injected_pod-IsWellFormed p1 empty empty-IsWellFormed

update_config_back_example :
    (view "u1" (update_config "h1" "public-key" 3 (update_config "h2" "public-key" 2 one).0).0
      ≡ some (orphaned, p1))
    × (is_drifted "h1" "public-key" p1 ≡ false)
unfolding string_eq new_model_validation_info Map.get Map.put add_injected_pod move_pod_to_state
    assign remove_pod Map.has get_pod_state is_drifted
update_config_back_example =
    update_config_back "u1" "h2" 2 3 p1 one one-IsWellFormed refl (differ "h1" "" refl)
      (differ "h2" "h1" refl)

abbrev name1 : NamespacedName
name1 = record { namespace = "default"; name = "app-1" }

abbrev mapping : PodMapping
mapping = add_pod name1 "u1" new_pod_mapping

add_pod_recreated_example :
    (get_uid_by_name name1 (add_pod name1 "u2" mapping) ≡ some "u2")
    × (get_name_by_uid "u1" (add_pod name1 "u2" mapping) ≡ some name1)
    × (get_uid_by_name name1 (remove_pod_by_uid "u1" (add_pod name1 "u2" mapping)).0 ≡ none)
    × (get_name_by_uid "u2" (remove_pod_by_uid "u1" (add_pod name1 "u2" mapping)).0 ≡ some name1)
unfolding get_name_by_uid add_pod new_pod_mapping Map.get Map.put Map.delete string_eq
add_pod_recreated_example = add_pod_recreated name1 "u1" "u2" mapping refl (differ "u1" "u2" refl)
