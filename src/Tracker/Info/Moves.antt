-- ===== src/Tracker/Info/Moves.antt =====
-- internal/tracker/model_validation_info.go: filing a pod, whatever its state was before.
use model_validation_operato.Base.{
  ◌≡◌, String, false, none, some, List, [], arith, inl, inr, Bool-cases, ◌&&◌, ◌==◌, ◌!=◌,
  string_eq, if◌then◌else◌,
}
use model_validation_operato.Base.Map
use model_validation_operato.Metrics.{
  PodState, untracked, injected, uninjected, orphaned, state_eq, Event, record_pod_state_transition,
}
use model_validation_operato.Tracker.Info.{
  PodInfo, ModelValidationInfo, is_drifted, remove_pod, move_pod_to_state, TargetMap, injected_map,
  uninjected_map, orphaned_map, add_injected_pod, add_uninjected_pod,
}
use model_validation_operato.Tracker.Info.View.{
  view, view_state, target_state, IsWellFormed, view-remove_pod, remove_pod-IsWellFormed,
  view-assign, assign-IsWellFormed, get_pod_state-view,
}

-- A well-formed resource has forgotten the pod that was just removed.
view-remove_pod_self :
    (v : String) (m : ModelValidationInfo) → IsWellFormed m → view v (remove_pod v m).0 ≡ none
view-remove_pod_self v m w = ground (arith, view-remove_pod v v m w)

config_hash-remove_pod :
    (v : String) (m : ModelValidationInfo) → (remove_pod v m).0.config_hash ≡ m.config_hash
unfolding remove_pod Map.has
config_hash-remove_pod v m = ground arith

auth_method-remove_pod :
    (v : String) (m : ModelValidationInfo) → (remove_pod v m).0.auth_method ≡ m.auth_method
unfolding remove_pod Map.has
auth_method-remove_pod v m = ground arith

-- The event that a move from one state to another records.
abbrev pub transition : String → String → PodState → PodState → List Event
transition namespace mv from to =
    if from != untracked && from != to then record_pod_state_transition namespace mv from to else []

-- A move files the pod in the target map, whatever map held it, and touches no other pod.
pub view-move_pod_to_state :
    (u : String) (p : PodInfo) (s : PodState) (t : TargetMap) (m : ModelValidationInfo)
    → IsWellFormed m
    → view u (move_pod_to_state p s t m).0
      ≡ (if u == p.uid then some (target_state t, p) else view u m)
unfolding move_pod_to_state
view-move_pod_to_state u p s t m w = ground (
  arith,
  view-assign u t p (remove_pod p.uid m).0 (view-remove_pod_self p.uid m w),
  view-remove_pod u p.uid m w,
)

pub move_pod_to_state-IsWellFormed :
    (p : PodInfo) (s : PodState) (t : TargetMap) (m : ModelValidationInfo)
    → IsWellFormed m
    → (t ≡ injected_map → is_drifted m.config_hash m.auth_method p ≡ false)
    → IsWellFormed (move_pod_to_state p s t m).0
unfolding move_pod_to_state
move_pod_to_state-IsWellFormed p s t m w h =
    assign-IsWellFormed t p (remove_pod p.uid m).0 (remove_pod-IsWellFormed p.uid m w)
      (view-remove_pod_self p.uid m w)
      (λ e. rw (config_hash-remove_pod, auth_method-remove_pod) (h e))

pub move_pod_to_state_events :
    (p : PodInfo) (s : PodState) (t : TargetMap) (m : ModelValidationInfo)
    → (move_pod_to_state p s t m).1 ≡ transition p.namespace m.name (view_state (view p.uid m)) s
unfolding move_pod_to_state
move_pod_to_state_events p s t m = rw get_pod_state-view

-- A pod with the finalizer is filed as orphaned if its annotations differ from the configuration
-- of the resource, and as injected if not; every other pod keeps its state and its record; and the
-- one recorded event is the transition, when the pod was tracked in another state before.
pub add_injected_pod_lem :
    (u : String) (p : PodInfo) (m : ModelValidationInfo)
    → IsWellFormed m
    → let s = if is_drifted m.config_hash m.auth_method p then orphaned else injected in
      (view u (add_injected_pod p m).0 ≡ (if u == p.uid then some (s, p) else view u m))
      × ((add_injected_pod p m).1 ≡ transition p.namespace m.name (view_state (view p.uid m)) s)
unfolding add_injected_pod
add_injected_pod_lem u p m w = elim (Bool-cases (is_drifted m.config_hash m.auth_method p)) [
  | inl e ↦ rw e (
    view-move_pod_to_state u p orphaned orphaned_map m w,
    move_pod_to_state_events p orphaned orphaned_map m,
  )
  | inr e ↦ rw e (
    view-move_pod_to_state u p injected injected_map m w,
    move_pod_to_state_events p injected injected_map m,
  )
]

-- A labelled pod without the finalizer is filed as uninjected, whatever it was before; every other
-- pod keeps its state and its record; and the one recorded event is the transition, when the pod
-- was tracked in another state before.
pub add_uninjected_pod_lem :
    (u : String) (p : PodInfo) (m : ModelValidationInfo)
    → IsWellFormed m
    → (view u (add_uninjected_pod p m).0 ≡ (if u == p.uid then some (uninjected, p) else view u m))
      × ((add_uninjected_pod p m).1
          ≡ transition p.namespace m.name (view_state (view p.uid m)) uninjected)
unfolding add_uninjected_pod
add_uninjected_pod_lem u p m w = (
  view-move_pod_to_state u p uninjected uninjected_map m w,
  move_pod_to_state_events p uninjected uninjected_map m,
)

pub add_injected_pod-IsWellFormed :
    (p : PodInfo) (m : ModelValidationInfo) → IsWellFormed m → IsWellFormed (add_injected_pod p m).0
unfolding add_injected_pod
add_injected_pod-IsWellFormed p m w = elim (Bool-cases (is_drifted m.config_hash m.auth_method p)) [
  | inl e ↦ rw e (move_pod_to_state-IsWellFormed p orphaned orphaned_map m w (λ h. cc))
  | inr e ↦ rw e (move_pod_to_state-IsWellFormed p injected injected_map m w (λ _. e))
]

pub add_uninjected_pod-IsWellFormed :
    (p : PodInfo) (m : ModelValidationInfo)
    → IsWellFormed m
    → IsWellFormed (add_uninjected_pod p m).0
unfolding add_uninjected_pod
add_uninjected_pod-IsWellFormed p m w =
    move_pod_to_state-IsWellFormed p uninjected uninjected_map m w (λ h. cc)
