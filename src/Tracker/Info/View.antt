-- ===== src/Tracker/Info/View.antt =====
-- internal/tracker/model_validation_info.go as a client sees it: the state of one pod, with the
-- record that is kept of it, and the invariant under which the three maps give each pod one state.
use model_validation_operato.Base.{
  ◌≡◌, refl, String, false, Option, none, some, arith, inl, inr, Option-cases, ◌==◌, string_eq,
  if◌then◌else◌,
}
use model_validation_operato.Base.Map
use model_validation_operato.Metrics.{PodState, untracked, injected, uninjected, orphaned}
use model_validation_operato.Tracker.Info.{
  PodInfo, ModelValidationInfo, is_drifted, get_pod_state, remove_pod, assign, TargetMap,
  injected_map, uninjected_map, orphaned_map,
}

abbrev pub View : Type 0
View = Option (PodState × PodInfo)

-- From the entries of the injected, the orphaned and the uninjected map.
abbrev pub select : Option PodInfo → Option PodInfo → Option PodInfo → View
select (some p) _ _ = some (injected, p)
select none (some p) _ = some (orphaned, p)
select none none (some p) = some (uninjected, p)
select none none none = none

unfoldable pub view : String → ModelValidationInfo → View
view u m =
    select (Map.get u m.injected_pods) (Map.get u m.orphaned_pods) (Map.get u m.uninjected_pods)

-- A pod is filed under its own UID and in one map, and what is injected is not drifted.
pub record IsWellFormed (m : ModelValidationInfo) : Type 0 where
  pub injected_nodup : Map.NodupKeys m.injected_pods
  pub orphaned_nodup : Map.NodupKeys m.orphaned_pods
  pub uninjected_nodup : Map.NodupKeys m.uninjected_pods
  pub of_injected :
      (u : String) (p : PodInfo)
      → Map.get u m.injected_pods ≡ some p
      → (p.uid ≡ u)
        × (Map.get u m.orphaned_pods ≡ none)
        × (Map.get u m.uninjected_pods ≡ none)
        × (is_drifted m.config_hash m.auth_method p ≡ false)
  pub of_orphaned :
      (u : String) (p : PodInfo)
      → Map.get u m.orphaned_pods ≡ some p
      → (p.uid ≡ u) × (Map.get u m.uninjected_pods ≡ none)
  pub of_uninjected : (u : String) (p : PodInfo) → Map.get u m.uninjected_pods ≡ some p → p.uid ≡ u

abbrev pub target_state : TargetMap → PodState
target_state injected_map = injected
target_state uninjected_map = uninjected
target_state orphaned_map = orphaned

abbrev pub view_state : View → PodState
view_state none = untracked
view_state (some (s, _)) = s

pub get_pod_state-view :
    (u : String) (m : ModelValidationInfo) → get_pod_state u m ≡ view_state (view u m)
unfolding get_pod_state view Map.has
get_pod_state-view u m = ground arith

-- On a well-formed resource the removed pod is gone from every map and no other pod is touched.
pub view-remove_pod :
    (u v : String) (m : ModelValidationInfo)
    → IsWellFormed m
    → view u (remove_pod v m).0 ≡ (if u == v then none else view u m)
unfolding remove_pod view Map.has
view-remove_pod u v m w = elim (Option-cases (Map.get v m.injected_pods)) [
  | inr (p, e) ↦ ground (arith, w.of_injected v p e, Map.get-delete u v m.injected_pods)
  | inl e ↦ elim (Option-cases (Map.get v m.orphaned_pods)) [
    | inr (p, f) ↦ ground (arith, w.of_orphaned v p f, Map.get-delete u v m.orphaned_pods)
    | inl f ↦ ground (arith, Map.get-delete u v m.uninjected_pods)
  ]
]

pub remove_pod-IsWellFormed :
    (v : String) (m : ModelValidationInfo) → IsWellFormed m → IsWellFormed (remove_pod v m).0
unfolding remove_pod Map.has
remove_pod-IsWellFormed v m w = record {
  injected_nodup = ground (arith, Map.delete-NodupKeys v m.injected_pods w.injected_nodup);
  orphaned_nodup = ground (arith, Map.delete-NodupKeys v m.orphaned_pods w.orphaned_nodup);
  uninjected_nodup = ground (arith, Map.delete-NodupKeys v m.uninjected_pods w.uninjected_nodup);
  of_injected = λ u p. ground (
    arith,
    w.of_injected u p,
    Map.get-delete u v m.injected_pods,
    Map.get-delete u v m.orphaned_pods,
    Map.get-delete u v m.uninjected_pods,
  );
  of_orphaned = λ u p. ground (
    arith,
    w.of_orphaned u p,
    Map.get-delete u v m.orphaned_pods,
    Map.get-delete u v m.uninjected_pods,
  );
  of_uninjected = λ u p. ground (arith, w.of_uninjected u p, Map.get-delete u v m.uninjected_pods);
}

-- Filing a pod that no map holds puts it in the target map and touches no other pod.
pub view-assign :
    (u : String) (t : TargetMap) (p : PodInfo) (m : ModelValidationInfo)
    → view p.uid m ≡ none
    → view u (assign t p m) ≡ (if u == p.uid then some (target_state t, p) else view u m)
unfolding assign view
view-assign u injected_map p m h = ground (arith, Map.get-put u p.uid p m.injected_pods)
view-assign u orphaned_map p m h = ground (arith, Map.get-put u p.uid p m.orphaned_pods)
view-assign u uninjected_map p m h = ground (arith, Map.get-put u p.uid p m.uninjected_pods)

pub assign-IsWellFormed :
    (t : TargetMap) (p : PodInfo) (m : ModelValidationInfo)
    → IsWellFormed m
    → view p.uid m ≡ none
    → (t ≡ injected_map → is_drifted m.config_hash m.auth_method p ≡ false)
    → IsWellFormed (assign t p m)
unfolding assign view
assign-IsWellFormed injected_map p m w h k = record {
  injected_nodup = Map.put-NodupKeys p.uid p m.injected_pods w.injected_nodup;
  orphaned_nodup = w.orphaned_nodup;
  uninjected_nodup = w.uninjected_nodup;
  of_injected =
      λ u q. ground (arith, k refl, w.of_injected u q, Map.get-put u p.uid p m.injected_pods);
  of_orphaned = w.of_orphaned;
  of_uninjected = w.of_uninjected;
}
assign-IsWellFormed orphaned_map p m w h k = record {
  injected_nodup = w.injected_nodup;
  orphaned_nodup = Map.put-NodupKeys p.uid p m.orphaned_pods w.orphaned_nodup;
  uninjected_nodup = w.uninjected_nodup;
  of_injected = λ u q. ground (arith, w.of_injected u q, Map.get-put u p.uid p m.orphaned_pods);
  of_orphaned = λ u q. ground (arith, w.of_orphaned u q, Map.get-put u p.uid p m.orphaned_pods);
  of_uninjected = w.of_uninjected;
}
assign-IsWellFormed uninjected_map p m w h k = record {
  injected_nodup = w.injected_nodup;
  orphaned_nodup = w.orphaned_nodup;
  uninjected_nodup = Map.put-NodupKeys p.uid p m.uninjected_pods w.uninjected_nodup;
  of_injected = λ u q. ground (arith, w.of_injected u q, Map.get-put u p.uid p m.uninjected_pods);
  of_orphaned = λ u q. ground (arith, w.of_orphaned u q, Map.get-put u p.uid p m.uninjected_pods);
  of_uninjected =
      λ u q. ground (arith, w.of_uninjected u q, Map.get-put u p.uid p m.uninjected_pods);
}
