-- ===== src/Tracker/Info.antt =====
-- internal/tracker/model_validation_info.go: the pods of one ModelValidation resource, sorted into
-- three maps by pod UID, and their moves between the maps.
pub mod View
pub mod Moves
pub mod Orphans
pub mod Drift
use model_validation_operato.Base.{
  ℕ, ◌+◌, String, Bool, true, false, ◌&&◌, ◌||◌, Option, none, some, List, [], ◌∷◌, ◌++◌, ◌==◌,
  ◌!=◌, string_eq, if◌then◌else◌,
}
use model_validation_operato.Base.Map
use model_validation_operato.Base.Map.{Map}
use model_validation_operato.Metrics.{
  PodState, untracked, injected, uninjected, orphaned, state_eq, Event, record_pod_state_transition,
}

-- The creation time is only copied, and is a number of seconds here.
pub record PodInfo : Type 0 where
  pub name : String
  pub namespace : String
  pub uid : String
  pub timestamp : ℕ
  pub config_hash : String
  pub auth_method : String

pub record ModelValidationInfo : Type 0 where
  pub name : String
  pub config_hash : String
  pub auth_method : String
  pub observed_generation : ℕ
  pub injected_pods : Map String PodInfo
  pub uninjected_pods : Map String PodInfo
  pub orphaned_pods : Map String PodInfo

unfoldable pub new_model_validation_info : String → String → String → ℕ → ModelValidationInfo
new_model_validation_info name config_hash auth_method generation = record {
  name = name;
  config_hash = config_hash;
  auth_method = auth_method;
  observed_generation = generation;
  injected_pods = [];
  uninjected_pods = [];
  orphaned_pods = [];
}

unfoldable pub get_pod_state : String → ModelValidationInfo → PodState
get_pod_state uid mvi =
    if Map.has uid mvi.injected_pods
    then injected
    else if Map.has uid mvi.orphaned_pods
    then orphaned
    else if Map.has uid mvi.uninjected_pods
    then uninjected
    else untracked

-- The first map that holds the pod loses it. The flag says whether one did.
unfoldable pub remove_pod : String → ModelValidationInfo → ModelValidationInfo × Bool
remove_pod uid mvi =
    if Map.has uid mvi.injected_pods
    then (record mvi { injected_pods = Map.delete uid mvi.injected_pods }, true)
    else if Map.has uid mvi.orphaned_pods
    then (record mvi { orphaned_pods = Map.delete uid mvi.orphaned_pods }, true)
    else if Map.has uid mvi.uninjected_pods
    then (record mvi { uninjected_pods = Map.delete uid mvi.uninjected_pods }, true)
    else (mvi, false)

-- `targetMap` is a reference to one of the three maps of `mvi`.
pub data TargetMap : Type 0 where
  injected_map uninjected_map orphaned_map : TargetMap

unfoldable pub assign : TargetMap → PodInfo → ModelValidationInfo → ModelValidationInfo
assign injected_map p mvi = record mvi { injected_pods = Map.put p.uid p mvi.injected_pods }
assign uninjected_map p mvi = record mvi { uninjected_pods = Map.put p.uid p mvi.uninjected_pods }
assign orphaned_map p mvi = record mvi { orphaned_pods = Map.put p.uid p mvi.orphaned_pods }

unfoldable pub move_pod_to_state :
    PodInfo → PodState → TargetMap → ModelValidationInfo → ModelValidationInfo × List Event
move_pod_to_state p new_state target mvi =
    let prev_state = get_pod_state p.uid mvi in
    let moved = assign target p (remove_pod p.uid mvi).0 in
    (
      moved,
      if prev_state != untracked && prev_state != new_state
          then record_pod_state_transition p.namespace mvi.name prev_state new_state
          else [],
    )

-- Was the pod injected under another configuration? A pod without an annotation counts as current.
unfoldable pub is_drifted : String → String → PodInfo → Bool
is_drifted config_hash auth_method p =
    (p.config_hash != "" && p.config_hash != config_hash)
    || (p.auth_method != "" && p.auth_method != auth_method)

unfoldable pub add_injected_pod : PodInfo → ModelValidationInfo → ModelValidationInfo × List Event
add_injected_pod p mvi =
    if is_drifted mvi.config_hash mvi.auth_method p
    then move_pod_to_state p orphaned orphaned_map mvi
    else move_pod_to_state p injected injected_map mvi

unfoldable pub add_uninjected_pod : PodInfo → ModelValidationInfo → ModelValidationInfo × List Event
add_uninjected_pod p mvi = move_pod_to_state p uninjected uninjected_map mvi

-- The loop that collects the drifted pods.
unfoldable pub drifted_pods : String → String → Map String PodInfo → List PodInfo
drifted_pods config_hash auth_method [] = []
drifted_pods config_hash auth_method ((_, p) ∷ pods) =
    let rest = drifted_pods config_hash auth_method pods in
    if is_drifted config_hash auth_method p then p ∷ rest else rest

-- The loop that moves them.
unfoldable pub move_to_orphaned : List PodInfo → ModelValidationInfo → ModelValidationInfo
move_to_orphaned [] mvi = mvi
move_to_orphaned (p ∷ ps) mvi = move_to_orphaned ps (record mvi {
  injected_pods = Map.delete p.uid mvi.injected_pods;
  orphaned_pods = Map.put p.uid p mvi.orphaned_pods;
})

unfoldable pub update_config :
    String → String → ℕ → ModelValidationInfo → ModelValidationInfo × List PodInfo
update_config config_hash auth_method generation mvi =
    if mvi.config_hash == config_hash && mvi.auth_method == auth_method
    then (record mvi { observed_generation = generation }, [])
    else (let drifted = drifted_pods config_hash auth_method mvi.injected_pods in
        (
          move_to_orphaned drifted (record mvi {
            config_hash = config_hash;
            auth_method = auth_method;
            observed_generation = generation;
          }),
          drifted,
        ))

unfoldable pub get_all_pods : ModelValidationInfo → List PodInfo
get_all_pods mvi =
    Map.values mvi.injected_pods ++ (Map.values mvi.uninjected_pods ++ Map.values mvi.orphaned_pods)
