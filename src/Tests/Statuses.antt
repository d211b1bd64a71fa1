-- ===== src/Tests/Statuses.antt =====
-- internal/tracker/status_tracker.go: status updates at concrete states.
use model_validation_operato.Base.{
  ◌≡◌, refl, String, Option, none, some, key_eq, string_eq, nat_eq, option_eq, ◌+◌, [], ◌∷◌, arith,
  List, less_text,
}
use model_validation_operato.Base.Map
use mathlib.Core.List.Perm
use model_validation_operato.Api.{ModelValidation, ModelValidationStatus}
use model_validation_operato.Kube.{found, not_found, Pod}
use model_validation_operato.Metrics.{state_eq, uninjected, orphaned}
use model_validation_operato.Tracker.Info.{
  PodInfo, ModelValidationInfo, new_model_validation_info, add_uninjected_pod, add_injected_pod,
  is_drifted, move_pod_to_state, assign, remove_pod, get_pod_state,
}
use model_validation_operato.Tracker.Status.{
  do_update_status, new_status, collect_pod_tracking_info, compare_pod_slices, status_equal,
}
use model_validation_operato.Tracker.Status.Writes.{do_update_status-Sends, Sends}
use model_validation_operato.Tracker.Status.AnyOrder.{
  Reordered, IsNamedApart, two_pods, injecting, do_update_status_settles_any_order,
  same_name_unsettles,
}
use model_validation_operato.Tracker.Status.Listing.{lists_of, only_in}
use model_validation_operato.Tracker.Status.Written.{
  run_written, update, status_after, seeding_written,
}
use model_validation_operato.Tracker.State.{
  process_seed_pods, StatusTracker, new_status_tracker, add_model_validation, process_pod_event,
  remove_model_validation, count_at, process_pod_event_common, pod_info_of,
}
use model_validation_operato.Tracker.State.Consistent.{IsConsistent-new}
use model_validation_operato.Tests.Samples.{drifted, differ, mv, key, pod, listed, same_text}
use model_validation_operato.Tracker.State.Runs.{TrackerEvent, mv_added, pod_seen, track_events}
use model_validation_operato.Tracker.State.Belief.{no_belief, tell_all}
use model_validation_operato.Tracker.State.Believed.{known_as_specified}
use model_validation_operato.Tracker.Mapping.{get_uid_by_name, add_pod, new_pod_mapping}
use model_validation_operato.Tracker.State.Refines.{known_of}
use model_validation_operato.Tracker.Status.Unordered.{decide, do_update_status_decides}
use mathlib.Core.Quot.{mk}
use model_validation_operato.Tracker.Status.Leak.{do_update_status_leaks}
use model_validation_operato.Tracker.State.Counts.{count_in}
use model_validation_operato.Tests.Tracking.{tracked, tracked-IsConsistent}
use model_validation_operato.Api.Hash.{
  get_config_hash, validation_config_hash, validation_config_text,
}
use model_validation_operato.Api.Method.{auth_method}
use model_validation_operato.Base.Sort.{sort_slice}
use model_validation_operato.Constants.{
  model_validation_finalizer, config_hash_annotation_key, auth_method_annotation_key,
}
use model_validation_operato.Base.{NamespacedName}

abbrev accepting : ModelValidationStatus → Option String
accepting _ = none

abbrev seen_pod : StatusTracker
seen_pod = process_pod_event listed pod tracked

abbrev info : ModelValidationInfo
info = new_model_validation_info "demo" (get_config_hash same_text mv) "public-key" 1

abbrev filed : ModelValidationInfo
filed = (add_uninjected_pod (pod_info_of pod) info).0

updated :
    (do_update_status same_text accepting 9 key (found mv) seen_pod).sent
    ≡ some (new_status mv filed 9)
unfolding do_update_status Map.get process_pod_event string_eq add_model_validation
    new_status_tracker Map.put key_eq add_uninjected_pod move_pod_to_state assign remove_pod Map.has
    new_model_validation_info get_config_hash auth_method status_equal nat_eq validation_config_hash
    validation_config_text Map.delete Map.values sort_slice state_eq get_pod_state add_pod
    new_pod_mapping process_pod_event_common collect_pod_tracking_info compare_pod_slices new_status
    less_text
updated = refl

no_error : (do_update_status same_text accepting 9 key (found mv) seen_pod).error ≡ none
unfolding do_update_status Map.get process_pod_event string_eq add_model_validation
    new_status_tracker Map.put key_eq add_uninjected_pod move_pod_to_state assign remove_pod Map.has
    new_model_validation_info get_config_hash auth_method status_equal nat_eq validation_config_hash
    validation_config_text Map.delete Map.values sort_slice state_eq get_pod_state add_pod
    new_pod_mapping process_pod_event_common collect_pod_tracking_info compare_pod_slices new_status
    less_text
no_error = refl

do_update_status-Sends_example :
    (mv' : ModelValidation) × (info' : ModelValidationInfo) × (found mv ≡ found mv')
    × (Map.get key seen_pod.model_validations ≡ some info')
    × Sends same_text accepting 9 key mv' info' (new_status mv filed 9)
do_update_status-Sends_example =
    do_update_status-Sends same_text accepting 9 key (found mv) seen_pod (new_status mv filed 9)
      updated

-- The resource with two uninjected pods, in the order in which the map is visited.
abbrev waiting : PodInfo → PodInfo → ModelValidationInfo
waiting p q = record info { uninjected_pods = two_pods p q }

abbrev tracking : ModelValidationInfo → StatusTracker
tracking m = record tracked { model_validations = (key, m) ∷ [] }

abbrev first_pod : PodInfo
first_pod = pod_info_of pod

abbrev other_pod : PodInfo
other_pod = record first_pod { name = "other"; uid = "u7" }

waiting-Reordered : Reordered (waiting first_pod other_pod) (waiting other_pod first_pod)
unfolding new_model_validation_info
waiting-Reordered = record {
  config_hash = refl;
  auth_method = refl;
  injected_pods = Perm.refl [];
  uninjected_pods = Perm.swap _ _ [];
  orphaned_pods = Perm.refl [];
}

waiting-IsNamedApart : IsNamedApart (waiting first_pod other_pod)
unfolding collect_pod_tracking_info string_eq Map.values new_model_validation_info
waiting-IsNamedApart = record {
  injected_pods = tt;
  uninjected_pods = ((differ "app-1" "other" refl, tt), (tt, tt));
  orphaned_pods = tt;
}

abbrev sent_first : ModelValidationStatus
sent_first = new_status mv (waiting first_pod other_pod) 9

first_update :
    let o =
      do_update_status same_text accepting 9 key
        (found mv)
        (tracking (waiting first_pod other_pod)) in
    (o.error ≡ none) × (o.sent ≡ some sent_first)
unfolding do_update_status Map.get string_eq key_eq new_model_validation_info get_config_hash
    auth_method status_equal nat_eq validation_config_hash validation_config_text Map.values
    sort_slice collect_pod_tracking_info compare_pod_slices new_status less_text
first_update = (refl, refl)

do_update_status_settles_any_order_example :
    let o =
      do_update_status same_text accepting 12 key
        (found (record mv { status = sent_first }))
        (tracking (waiting other_pod first_pod)) in
    (o.error ≡ none) × (o.sent ≡ none)
unfolding Map.get key_eq
do_update_status_settles_any_order_example =
    do_update_status_settles_any_order same_text accepting accepting 9 12 key mv
      (tracking (waiting first_pod other_pod)) (tracking (waiting other_pod first_pod))
      (waiting first_pod other_pod) (waiting other_pod first_pod) sent_first refl refl
      waiting-Reordered waiting-IsNamedApart first_update.0 first_update.1

do_update_status_decides_example :
    let o =
      do_update_status same_text accepting 9 key
        (found mv)
        (tracking (waiting first_pod other_pod)) in
    (o.error, o.sent)
    ≡ decide same_text accepting 9 key mv (mk (waiting first_pod other_pod, waiting-IsNamedApart))
unfolding Map.get key_eq
do_update_status_decides_example =
    do_update_status_decides same_text accepting 9 key mv (waiting first_pod other_pod)
      waiting-IsNamedApart (tracking (waiting first_pod other_pod)) refl

-- A pod with the finalizer and the annotations of the resource, and the same created again.
abbrev marked : Pod
marked = record pod {
  finalizers = model_validation_finalizer ∷ [];
  annotations =
      (config_hash_annotation_key, get_config_hash same_text mv)
      ∷ (auth_method_annotation_key, "public-key")
      ∷ [];
}

abbrev again : Pod
again = record marked { uid = "u7" }

-- Both pods are seen, with no removal between them.
abbrev both_seen : StatusTracker
both_seen = process_pod_event listed again (process_pod_event listed marked tracked)

same_name_unsettles_example :
    let p = pod_info_of again in
    let q = pod_info_of marked in
    let mv' = record mv { status = new_status mv (injecting p q info) 9 } in
    Reordered (injecting p q info) (injecting q p info)
    × ((do_update_status same_text accepting 12 key (found mv') both_seen).sent
        ≡ some (new_status mv' (injecting q p info) 12))
unfolding Map.get string_eq key_eq new_model_validation_info auth_method process_pod_event
    add_model_validation new_status_tracker Map.put add_injected_pod is_drifted move_pod_to_state
    assign remove_pod Map.has get_config_hash nat_eq Map.delete process_pod_event_common
    validation_config_hash validation_config_text
same_name_unsettles_example =
    same_name_unsettles same_text accepting 9 12 key mv both_seen info (pod_info_of again)
      (pod_info_of marked) refl (differ "u7" "u1" refl) refl refl refl

do_update_status_leaks_example :
    let st = (do_update_status same_text accepting 9 key not_found tracked).tracker in
    (count_at "default" st.mv_namespaces ≡ count_in "default" st.model_validations + 1)
    × (remove_model_validation key st ≡ st)
unfolding add_model_validation Map.get new_status_tracker Map.put key_eq auth_method
do_update_status_leaks_example =
    do_update_status_leaks same_text accepting 9 key info tracked tracked-IsConsistent refl

accepted : (s : ModelValidationStatus) → accepting s ≡ none
accepted s = refl

seeding_written_example :
    let seeded =
      process_seed_pods listed
        (drifted ∷ pod ∷ [])
        key
        (add_model_validation same_text mv new_status_tracker) in
    ((update same_text accepting 9 key mv seeded).error ≡ none)
    × (lists_of "u1" (status_after same_text accepting 9 key mv seeded) ≡ only_in uninjected)
unfolding string_eq new_model_validation_info get_config_hash is_drifted Map.get new_status_tracker
seeding_written_example =
    seeding_written same_text accepting 9 listed "u1" (drifted ∷ pod ∷ []) mv new_status_tracker
      IsConsistent-new refl accepted

event_error :
    (update same_text accepting 9 key mv (process_pod_event listed drifted tracked)).error ≡ none
unfolding do_update_status Map.get process_pod_event string_eq add_model_validation
    new_status_tracker Map.put key_eq add_injected_pod is_drifted move_pod_to_state assign
    remove_pod Map.has new_model_validation_info get_config_hash auth_method status_equal nat_eq
    validation_config_hash validation_config_text Map.delete Map.values sort_slice state_eq
    get_pod_state add_pod new_pod_mapping process_pod_event_common collect_pod_tracking_info
    compare_pod_slices new_status less_text
event_error = refl

abbrev events : List TrackerEvent
events = mv_added mv ∷ pod_seen drifted ∷ []

run_written_example :
    lists_of "u1" (
      status_after same_text accepting 9 key mv
        (track_events same_text listed events new_status_tracker))
    ≡ only_in orphaned
unfolding string_eq key_eq nat_eq new_model_validation_info get_config_hash is_drifted Map.get
    Map.put add_model_validation new_status_tracker auth_method process_pod_event
    process_pod_event_common
run_written_example =
    run_written same_text accepting 9 listed events "u1" key mv (λ h. ground arith) event_error

known_as_specified_example :
    (known_of (track_events same_text listed events new_status_tracker)
      ≡ (tell_all same_text listed events no_belief).known)
    × ((n : NamespacedName)
        → get_uid_by_name n (track_events same_text listed events new_status_tracker).pod_mapping
          ≡ (tell_all same_text listed events no_belief).uid_of n)
known_as_specified_example = known_as_specified same_text listed events
