-- ===== src/Tracker/Status/Writes.antt =====
-- internal/tracker/status_tracker.go: what a status update sends, and when it sends nothing.
use mathlib.Core.List.{Perm}
use model_validation_operato.Base.{
  ◌≡◌, refl, ℕ, String, true, false, Option, none, some, List, [], ◌∷◌, arith, NamespacedName,
  key_eq, string_eq, nat_eq, length, inl, inr, Option-cases, subst, sym,
}
use model_validation_operato.Base.Map
use model_validation_operato.Base.Sort.{sort_slice-perm}
use model_validation_operato.Kube.{Fetch, found, not_found, failed}
use model_validation_operato.Api.{ModelValidation, ModelValidationStatus, PodTrackingInfo}
use model_validation_operato.Api.Method.{get_auth_method}
use model_validation_operato.Api.Hash.{get_config_hash}
use model_validation_operato.Tracker.Info.{ModelValidationInfo}
use model_validation_operato.Tracker.State.{StatusTracker}
use model_validation_operato.Tracker.Status.{
  compare_pod_slices, status_equal, new_status, int32, do_update_status, by_name,
  collect_pod_tracking_info, update_tracked,
}

compare_pod_slices_self : (xs : List PodTrackingInfo) → compare_pod_slices xs xs ≡ true
unfolding compare_pod_slices
compare_pod_slices_self [] = refl
compare_pod_slices_self (x ∷ xs) = ground (arith, compare_pod_slices_self xs)

-- Statuses with the same counts, method and pods are equal.
status_equal_of :
    (a b : ModelValidationStatus)
    → a.injected_pod_count ≡ b.injected_pod_count
    → a.uninjected_pod_count ≡ b.uninjected_pod_count
    → a.orphaned_pod_count ≡ b.orphaned_pod_count
    → a.auth_method ≡ b.auth_method
    → a.injected_pods ≡ b.injected_pods
    → a.uninjected_pods ≡ b.uninjected_pods
    → a.orphaned_pods ≡ b.orphaned_pods
    → status_equal a b ≡ true
unfolding status_equal
status_equal_of a b ci cu co m i u o =
    rw (i, u, o)
      (ground (
        arith,
        compare_pod_slices_self b.injected_pods,
        compare_pod_slices_self b.uninjected_pods,
        compare_pod_slices_self b.orphaned_pods,
      ))

-- A status is equal to one that differs from it in the time and the conditions at most.
pub status_equal_self :
    (mv mv' : ModelValidation) (info : ModelValidationInfo) (now now' : ℕ)
    → status_equal (new_status mv info now) (new_status mv' info now') ≡ true
unfolding new_status
status_equal_self mv mv' info now now' = status_equal_of _ _ refl refl refl refl refl refl refl

module _ (digest : String → String) (write : ModelValidationStatus → Option String) (now : ℕ)
    (key : NamespacedName) where
  -- What it takes to send a status.
  pub record Sends (mv : ModelValidation) (info : ModelValidationInfo) (s : ModelValidationStatus)
      : Type 0 where
    pub same_hash : info.config_hash ≡ get_config_hash digest mv
    pub same_method : info.auth_method ≡ get_auth_method mv
    pub changed : status_equal mv.status s ≡ false
    pub injected_pods : Perm s.injected_pods (collect_pod_tracking_info info.injected_pods)
    pub uninjected_pods : Perm s.uninjected_pods (collect_pod_tracking_info info.uninjected_pods)
    pub orphaned_pods : Perm s.orphaned_pods (collect_pod_tracking_info info.orphaned_pods)
    pub injected_pod_count : s.injected_pod_count ≡ int32 (length s.injected_pods)
    pub uninjected_pod_count : s.uninjected_pod_count ≡ int32 (length s.uninjected_pods)
    pub orphaned_pod_count : s.orphaned_pod_count ≡ int32 (length s.orphaned_pods)
    pub auth_method : s.auth_method ≡ info.auth_method
    pub conditions : s.conditions ≡ mv.status.conditions

  new_status-Sends :
      (mv : ModelValidation) (info : ModelValidationInfo)
      → info.config_hash ≡ get_config_hash digest mv
      → info.auth_method ≡ get_auth_method mv
      → status_equal mv.status (new_status mv info now) ≡ false
      → Sends mv info (new_status mv info now)
  unfolding new_status
  new_status-Sends mv info h a c = record {
    same_hash = h;
    same_method = a;
    changed = c;
    injected_pods = sort_slice-perm by_name (collect_pod_tracking_info info.injected_pods);
    uninjected_pods = sort_slice-perm by_name (collect_pod_tracking_info info.uninjected_pods);
    orphaned_pods = sort_slice-perm by_name (collect_pod_tracking_info info.orphaned_pods);
    injected_pod_count = refl;
    uninjected_pod_count = refl;
    orphaned_pod_count = refl;
    auth_method = refl;
    conditions = refl;
  }

  pub sent-update_tracked :
      (mv : ModelValidation) (info : ModelValidationInfo) (st : StatusTracker)
      (s : ModelValidationStatus)
      → (update_tracked digest write now key mv info st).sent ≡ some s
      → (s ≡ new_status mv info now)
        × (info.config_hash ≡ get_config_hash digest mv)
        × (info.auth_method ≡ get_auth_method mv)
        × (status_equal mv.status (new_status mv info now) ≡ false)
  unfolding update_tracked
  sent-update_tracked mv info st s h = ground arith

  pub model_validations-update_tracked :
      (mv : ModelValidation) (info : ModelValidationInfo) (st : StatusTracker)
      → (update_tracked digest write now key mv info st).tracker.model_validations
        ≡ st.model_validations
  unfolding update_tracked
  model_validations-update_tracked mv info st = ground arith

  pub do_update_status-found :
      (mv : ModelValidation) (info : ModelValidationInfo) (st : StatusTracker)
      → Map.get key st.model_validations ≡ some info
      → do_update_status digest write now key (found mv) st
        ≡ update_tracked digest write now key mv info st
  unfolding do_update_status
  do_update_status-found mv info st e = rw (e, do_update_status)

  pub update_tracked_equal :
      (mv : ModelValidation) (info : ModelValidationInfo) (st : StatusTracker)
      → info.config_hash ≡ get_config_hash digest mv
      → info.auth_method ≡ get_auth_method mv
      → status_equal mv.status (new_status mv info now) ≡ true
      → let o = update_tracked digest write now key mv info st in (o.error ≡ none) × (o.sent ≡ none)
  unfolding update_tracked
  update_tracked_equal mv info st h a e = ground arith

  -- A status is sent only for a tracked resource whose configuration is the tracked one, and only
  -- if it differs from the stored status; it lists the tracked pods of each state, each once, with
  -- their numbers (as 32-bit integers), and keeps the conditions.
  pub do_update_status-Sends :
      (fetched : Fetch ModelValidation) (st : StatusTracker) (s : ModelValidationStatus)
      → (do_update_status digest write now key fetched st).sent ≡ some s
      → (mv : ModelValidation) × (info : ModelValidationInfo) × (fetched ≡ found mv)
        × (Map.get key st.model_validations ≡ some info)
        × Sends mv info s
  unfolding do_update_status
  do_update_status-Sends not_found st s h = cc
  do_update_status-Sends (failed e) st s h = cc
  do_update_status-Sends (found mv) st s h =
      elim (Option-cases (Map.get key st.model_validations)) [
        | inl e ↦ absurd (ground arith)
        | inr (info, e) ↦
            let (q, f, g, c) = sent-update_tracked mv info st s (ground arith) in
            (mv, info, refl, e, subst (Sends mv info) (sym q) (new_status-Sends mv info f g c))
      ]

-- An update that reached the API server settles: another update of the same resource, with the
-- status that was sent, at any later time, returns no error and sends nothing.
pub do_update_status_settles :
    (digest : String → String) (write write' : ModelValidationStatus → Option String) (now now' : ℕ)
    (key : NamespacedName) (mv : ModelValidation) (st : StatusTracker) (s : ModelValidationStatus)
    → (do_update_status digest write now key (found mv) st).error ≡ none
    → (do_update_status digest write now key (found mv) st).sent ≡ some s
    → let o =
        do_update_status digest write' now' key
          (found (record mv { status = s }))
          (do_update_status digest write now key (found mv) st).tracker in
      (o.error ≡ none) × (o.sent ≡ none)
unfolding get_config_hash
do_update_status_settles digest write write' now now' key mv st s e h =
    let (_, info, _, tracked, _) = do_update_status-Sends digest write now key (found mv) st s h in
    let first = do_update_status-found digest write now key mv info st tracked in
    let mv' = record mv { status = s } in
    let (same, hash, method, _) =
      sent-update_tracked digest write now key mv info st s (rw (← first) h) in
    let kept = model_validations-update_tracked digest write now key mv info st in
    rw first (
      rw
        (do_update_status-found digest write' now' key mv' info
          (update_tracked digest write now key mv info st).tracker (rw kept tracked))
        (update_tracked_equal digest write' now' key mv' info _ hash method (
          rw same
            (status_equal_self mv (record mv { status = new_status mv info now }) info now now'))))
