-- ===== src/Tracker/State.antt =====
-- internal/tracker/status_tracker.go: the tracker's state and its operations on events. Each holds
-- the tracker's lock throughout, so it is one step. What the tracker asks of its debounced queue is
-- kept as a list of calls, the goroutines that it starts as a list of resources to seed.
pub mod Counts
pub mod Removal
pub mod Consistent
pub mod Invariant
pub mod Views
pub mod Seeding
pub mod Spec
pub mod Refines
pub mod Names
pub mod Belief
pub mod Believed
pub mod Runs
pub mod Races
pub mod Relabelled
pub mod Filed
pub mod Reach
pub mod Gauge
pub mod Generation
use model_validation_operato.Base.{
  ℕ, ◌+◌, ◌-◌, String, Bool, true, false, Option, none, some, List, [], ◌∷◌, ◌++◌, map, length, leb,
  ◌==◌, ◌!=◌, NamespacedName, key_eq, string_eq, nat_eq, if◌then◌else◌,
}
use model_validation_operato.Base.Map
use model_validation_operato.Base.Map.{Map}
use model_validation_operato.Constants.{
  model_validation_label, model_validation_finalizer, config_hash_annotation_key,
  auth_method_annotation_key,
}
use model_validation_operato.Kube.{Pod, Finalizers}
use model_validation_operato.Api.{ModelValidation}
use model_validation_operato.Api.Method.{get_auth_method}
use model_validation_operato.Api.Hash.{get_config_hash}
use model_validation_operato.Metrics.{
  Event, injected, uninjected, orphaned, pod_count, model_validation_crs,
  record_multiple_pod_state_transitions,
}
use model_validation_operato.Tracker.Info.{
  PodInfo, ModelValidationInfo, new_model_validation_info, add_injected_pod, add_uninjected_pod,
  remove_pod, update_config, get_all_pods,
}
use model_validation_operato.Tracker.Mapping.{
  PodMapping, new_pod_mapping, add_pod, remove_pods_by_name, get_uid_by_name,
}

-- The calls of the interface `DebouncedQueue` that the tracker makes.
pub data QueueCall : Type 0 where
  add : NamespacedName → QueueCall
  add_with_retry : NamespacedName → QueueCall
  forget_retries : NamespacedName → QueueCall
  done : NamespacedName → QueueCall

pub record StatusTracker : Type 0 where
  pub model_validations : Map NamespacedName ModelValidationInfo
  pub mv_namespaces : Map String ℕ
  pub pod_mapping : PodMapping
  pub queue_calls : List QueueCall
  pub seeds : List NamespacedName
  pub events : List Event

unfoldable pub new_status_tracker : StatusTracker
new_status_tracker = record {
  model_validations = [];
  mv_namespaces = [];
  pod_mapping = new_pod_mapping;
  queue_calls = [];
  seeds = [];
  events = [];
}

-- A counter that is missing reads as 0.
abbrev pub count_at : String → Map String ℕ → ℕ
count_at ns counts = elim (Map.get ns counts) [ none ↦ 0 | some n ↦ n ]

abbrev pub enqueue : NamespacedName → StatusTracker → StatusTracker
enqueue key st = record st { queue_calls = st.queue_calls ++ (add key ∷ []) }

abbrev pub mv_key : ModelValidation → NamespacedName
mv_key mv = record { namespace = mv.namespace; name = mv.name }

abbrev pub is_some {ℓ} : {A : Type ℓ} → Option A → Bool
is_some none = false
is_some (some _) = true

unfoldable pub is_model_validation_tracked : NamespacedName → StatusTracker → Bool
is_model_validation_tracked key st = is_some (Map.get key st.model_validations)

unfoldable pub get_observed_generation : NamespacedName → StatusTracker → ℕ × Bool
get_observed_generation key st = elim (Map.get key st.model_validations) [
  | none ↦ (0, false)
  | some info ↦ (info.observed_generation, true)
]

module _ (digest : String → String) where
  abbrev pub info_of : ModelValidation → ModelValidationInfo
  info_of mv =
      new_model_validation_info mv.name (get_config_hash digest mv) (get_auth_method mv)
        mv.generation

  -- A resource that is not tracked yet.
  start_tracking : ModelValidation → StatusTracker → StatusTracker
  start_tracking mv st =
      let n = count_at mv.namespace st.mv_namespaces + 1 in
      record st {
        model_validations = Map.put (mv_key mv) (info_of mv) st.model_validations;
        mv_namespaces = Map.put mv.namespace n st.mv_namespaces;
        events = st.events ++ (model_validation_crs mv.namespace n ∷ []);
        seeds = st.seeds ++ (mv_key mv ∷ []);
      }

  -- A tracked resource whose generation changed.
  update_tracking : ModelValidation → ModelValidationInfo → StatusTracker → StatusTracker
  update_tracking mv info st =
      let (info', drifted) =
        update_config (get_config_hash digest mv) (get_auth_method mv) mv.generation info in
      record st {
        model_validations = Map.put (mv_key mv) info' st.model_validations;
        events =
            st.events
            ++ record_multiple_pod_state_transitions mv.namespace mv.name injected orphaned
                (length drifted);
      }

  unfoldable pub add_model_validation : ModelValidation → StatusTracker → StatusTracker
  unfolding start_tracking update_tracking
  add_model_validation mv st =
      enqueue (mv_key mv) (elim (Map.get (mv_key mv) st.model_validations) [
        | none ↦ start_tracking mv st
        | some info ↦
            if mv.generation != info.observed_generation then update_tracking mv info st else st
      ])

-- `mvNamespaces[ns]--`, and the entry goes once it is 0 or less.
unfoldable pub decrement : String → Map String ℕ → Map String ℕ
decrement ns counts =
    if leb (count_at ns counts) 1
    then Map.delete ns counts
    else Map.put ns (count_at ns counts - 1) counts

abbrev pub pod_key : PodInfo → NamespacedName
pod_key p = record { namespace = p.namespace; name = p.name }

unfoldable pub remove_model_validation : NamespacedName → StatusTracker → StatusTracker
remove_model_validation key st = elim (Map.get key st.model_validations) [
  | none ↦ st
  | some info ↦ record st {
    model_validations = Map.delete key st.model_validations;
    mv_namespaces = decrement key.namespace st.mv_namespaces;
    pod_mapping = remove_pods_by_name (map pod_key (get_all_pods info)) st.pod_mapping;
    events =
        st.events
        ++ (model_validation_crs key.namespace (count_at key.namespace st.mv_namespaces - 1)
            ∷ pod_count key.namespace key.name injected 0
            ∷ pod_count key.namespace key.name uninjected 0
            ∷ pod_count key.namespace key.name orphaned 0
            ∷ []);
  }
]

-- A missing annotation reads as the empty text.
abbrev pub text_at : String → Map String String → String
text_at key texts = elim (Map.get key texts) [ none ↦ "" | some t ↦ t ]

abbrev pub pod_info_of : Pod → PodInfo
pod_info_of pod = record {
  name = pod.name;
  namespace = pod.namespace;
  uid = pod.uid;
  timestamp = pod.creation_timestamp;
  config_hash = text_at config_hash_annotation_key pod.annotations;
  auth_method = text_at auth_method_annotation_key pod.annotations;
}

module _ (F : Finalizers) where
  pub file_pod : Pod → ModelValidationInfo → ModelValidationInfo × List Event
  file_pod pod info =
      if F.contains model_validation_finalizer pod.finalizers
      then add_injected_pod (pod_info_of pod) info
      else add_uninjected_pod (pod_info_of pod) info

  unfoldable pub process_pod_event_common :
      Pod → NamespacedName → ModelValidationInfo → StatusTracker → StatusTracker
  unfolding file_pod
  process_pod_event_common pod key info st =
      let (info', es) = file_pod pod info in
      enqueue key (record st {
        pod_mapping =
            add_pod (record { namespace = pod.namespace; name = pod.name }) pod.uid st.pod_mapping;
        model_validations = Map.put key info' st.model_validations;
        events = st.events ++ es;
      })

  -- The lookup of the resource under the lock.
  pub process_for : Pod → NamespacedName → StatusTracker → StatusTracker
  process_for pod key st = elim (Map.get key st.model_validations) [
    | none ↦ st
    | some info ↦ process_pod_event_common pod key info st
  ]

  -- A pod that is nil is outside the model: the reconciler never passes one.
  unfoldable pub process_pod_event : Pod → StatusTracker → StatusTracker
  unfolding process_for process_pod_event_common
  process_pod_event pod st =
      let name = text_at model_validation_label pod.labels in
      if name == ""
      then st
      else process_for pod (record { namespace = pod.namespace; name = name }) st

  unfoldable pub process_seed_pod_event : Pod → NamespacedName → StatusTracker → StatusTracker
  unfolding process_for process_pod_event_common
  process_seed_pod_event pod key st =
      if text_at model_validation_label pod.labels == "" then st else process_for pod key st

  -- The goroutine of a new resource, on the pods that the API server listed. Each pod is a step of
  -- its own, and no step fails.
  unfoldable pub process_seed_pods : List Pod → NamespacedName → StatusTracker → StatusTracker
  process_seed_pods [] key st = st
  process_seed_pods (pod ∷ pods) key st =
      process_seed_pods pods key (process_seed_pod_event pod key st)

-- The loop over the tracked resources, with the keys of those that held the pod.
unfoldable pub remove_pod_everywhere :
    String
    → Map NamespacedName ModelValidationInfo
    → Map NamespacedName ModelValidationInfo × List NamespacedName
remove_pod_everywhere uid [] = ([], [])
remove_pod_everywhere uid ((key, info) ∷ mvs) =
    let (mvs', updated) = remove_pod_everywhere uid mvs in
    let (info', removed) = remove_pod uid info in
    ((key, info') ∷ mvs', if removed then key ∷ updated else updated)

unfoldable pub remove_pod_event : String → StatusTracker → StatusTracker
remove_pod_event uid st =
    let (mvs, updated) = remove_pod_everywhere uid st.model_validations in
    record st { model_validations = mvs; queue_calls = st.queue_calls ++ map add updated }

unfoldable pub remove_pod_by_name : NamespacedName → StatusTracker → StatusTracker
unfolding remove_pod_event
remove_pod_by_name name st = elim (get_uid_by_name name st.pod_mapping) [
  | none ↦ st
  | some uid ↦
      let st' = remove_pod_event uid st in
      record st' { pod_mapping = remove_pods_by_name (name ∷ []) st'.pod_mapping }
]
