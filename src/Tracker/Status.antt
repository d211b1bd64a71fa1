-- ===== src/Tracker/Status.antt =====
-- internal/tracker/status_tracker.go: the worker that writes what is tracked into the status of a
-- resource. The answers of the API server and the time are arguments.
pub mod Writes
pub mod Rounds
pub mod Leak
pub mod AnyOrder
pub mod Unordered
pub mod Listing
pub mod Stored
pub mod Written
use model_validation_operato.Base.{
  ℕ, ◌%◌, ◌^◌, String, Bool, true, false, Option, none, some, List, [], ◌∷◌, ◌++◌, map, length,
  ◌==◌, ◌!=◌, ◌&&◌, ◌||◌, NamespacedName, key_eq, string_eq, nat_eq, if◌then◌else◌, less_text,
}
use model_validation_operato.Base.Map
use model_validation_operato.Base.Map.{Map}
use model_validation_operato.Base.Sort.{sort_slice}
use model_validation_operato.Kube.{Fetch, found, not_found, failed}
use model_validation_operato.Api.{ModelValidation, ModelValidationStatus, PodTrackingInfo}
use model_validation_operato.Api.Method.{get_auth_method}
use model_validation_operato.Api.Hash.{get_config_hash}
use model_validation_operato.Metrics
use model_validation_operato.Metrics.{
  Event, injected, uninjected, orphaned, pod_count, UpdateResult, status_update,
  configuration_drift, retry_attempt, success, failure, DriftType,
}
use model_validation_operato.Tracker.Info.{PodInfo, ModelValidationInfo}
use model_validation_operato.Tracker.State.{
  StatusTracker, QueueCall, add_with_retry, forget_retries, done,
}

abbrev pub tracking_info : PodInfo → PodTrackingInfo
tracking_info p = record { name = p.name; uid = p.uid; injected_at = p.timestamp }

unfoldable pub collect_pod_tracking_info : Map String PodInfo → List PodTrackingInfo
collect_pod_tracking_info pods = map tracking_info (Map.values pods)

abbrev pub by_name : PodTrackingInfo → PodTrackingInfo → Bool
by_name x y = less_text x.name y.name

abbrev pub sorted_pods : Map String PodInfo → List PodTrackingInfo
sorted_pods pods = sort_slice by_name (collect_pod_tracking_info pods)

-- The conversion to int32, as a bit pattern.
abbrev pub int32 : ℕ → ℕ
int32 n = n % 2 ^ 32

unfoldable pub compare_pod_slices : List PodTrackingInfo → List PodTrackingInfo → Bool
compare_pod_slices [] [] = true
compare_pod_slices [] (y ∷ ys) = false
compare_pod_slices (x ∷ xs) [] = false
compare_pod_slices (x ∷ xs) (y ∷ ys) =
    x.name == y.name && x.uid == y.uid && compare_pod_slices xs ys

unfoldable pub status_equal : ModelValidationStatus → ModelValidationStatus → Bool
status_equal a b =
    if a.injected_pod_count != b.injected_pod_count
      || (a.uninjected_pod_count != b.uninjected_pod_count
          || (a.orphaned_pod_count != b.orphaned_pod_count || a.auth_method != b.auth_method))
    then false
    else (compare_pod_slices a.injected_pods b.injected_pods
        && (compare_pod_slices a.uninjected_pods b.uninjected_pods
            && compare_pod_slices a.orphaned_pods b.orphaned_pods))

-- Why an update failed.
pub data UpdateError : Type 0 where
  get_failed : String → UpdateError
  config_drift : UpdateError
  write_failed : String → UpdateError

-- What one update did: the tracker after it, the error that it returned, and the status that it
-- sent to the API server, if it sent one.
pub record Outcome : Type 0 where
  pub tracker : StatusTracker
  pub error : Option UpdateError
  pub sent : Option ModelValidationStatus

abbrev recorded : StatusTracker → List Event → StatusTracker
recorded st es = record st { events = st.events ++ es }

abbrev ended : StatusTracker → List Event → Option UpdateError → Outcome
ended st es e = record { tracker = recorded st es; error = e; sent = none }

drift_events : NamespacedName → Bool → Bool → List Event
drift_events key hash auth =
    (if hash then configuration_drift key.namespace key.name DriftType.config_hash ∷ [] else [])
    ++ (if auth then configuration_drift key.namespace key.name DriftType.auth_method ∷ [] else [])

record_pod_counts : NamespacedName → ℕ → ℕ → ℕ → List Event
record_pod_counts key i u o =
    pod_count key.namespace key.name injected i
    ∷ pod_count key.namespace key.name uninjected u
    ∷ pod_count key.namespace key.name orphaned o
    ∷ []

unfoldable pub new_status : ModelValidation → ModelValidationInfo → ℕ → ModelValidationStatus
new_status mv info now = record {
  conditions = mv.status.conditions;
  injected_pod_count = int32 (length (sorted_pods info.injected_pods));
  uninjected_pod_count = int32 (length (sorted_pods info.uninjected_pods));
  orphaned_pod_count = int32 (length (sorted_pods info.orphaned_pods));
  auth_method = info.auth_method;
  injected_pods = sorted_pods info.injected_pods;
  uninjected_pods = sorted_pods info.uninjected_pods;
  orphaned_pods = sorted_pods info.orphaned_pods;
  last_updated = now;
}

-- `write` is the API server's answer to a status update: an error, or none.
module _ (digest : String → String) (write : ModelValidationStatus → Option String) (now : ℕ)
    (key : NamespacedName) where
  send : ModelValidationStatus → StatusTracker → Outcome
  unfolding record_pod_counts
  send status st = elim (write status) [
    | some e ↦ record {
      tracker = recorded st (status_update key.namespace key.name failure ∷ []);
      error = some (write_failed e);
      sent = some status;
    }
    | none ↦ record {
      tracker = recorded st (
          status_update key.namespace key.name success
          ∷ record_pod_counts key (length status.injected_pods) (length status.uninjected_pods)
              (length status.orphaned_pods));
      error = none;
      sent = some status;
    }
  ]

  pub update_tracked : ModelValidation → ModelValidationInfo → StatusTracker → Outcome
  unfolding send drift_events
  update_tracked mv info st =
      let hash_differs = info.config_hash != get_config_hash digest mv in
      let auth_differs = info.auth_method != get_auth_method mv in
      if hash_differs || auth_differs
      then ended st
          (drift_events key hash_differs auth_differs
            ++ (status_update key.namespace key.name failure ∷ []))
          (some config_drift)
      else if status_equal mv.status (new_status mv info now)
      then ended st (status_update key.namespace key.name success ∷ []) none
      else send (new_status mv info now) st

  unfoldable pub do_update_status : Fetch ModelValidation → StatusTracker → Outcome
  unfolding update_tracked
  do_update_status not_found st =
      ended (record st { model_validations = Map.delete key st.model_validations })
        (status_update key.namespace key.name failure ∷ []) none
  do_update_status (failed e) st =
      ended st (status_update key.namespace key.name failure ∷ []) (some (get_failed e))
  do_update_status (found mv) st = elim (Map.get key st.model_validations) [
    | none ↦ ended st [] none
    | some info ↦ update_tracked mv info st
  ]

  abbrev after_update : Outcome → StatusTracker
  after_update o = elim o.error [
    | some _ ↦
        let st = recorded o.tracker (retry_attempt key.namespace key.name ∷ []) in
        record st { queue_calls = st.queue_calls ++ (add_with_retry key ∷ done key ∷ []) }
    | none ↦
        let st = o.tracker in
        record st { queue_calls = st.queue_calls ++ (forget_retries key ∷ done key ∷ []) }
  ]

  -- One round of the worker, for the key that the queue gave it.
  unfoldable pub process_next_update : Fetch ModelValidation → StatusTracker → StatusTracker
  unfolding do_update_status
  process_next_update fetched st = after_update (do_update_status fetched st)
