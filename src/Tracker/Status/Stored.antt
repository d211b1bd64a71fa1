-- ===== src/Tracker/Status/Stored.antt =====
-- internal/tracker/status_tracker.go: the status that a resource has after an update without an
-- error, whether the update sent it or found it in place, and what the tracker knows of its pods.
use model_validation_operato.Base.{
  ◌≡◌, ◌∙◌, refl, ap, ℕ, String, true, Option, none, some, List, arith, NamespacedName, key_eq,
  string_eq, nat_eq, length, inl, inr, ◌⊎◌,
}
use model_validation_operato.Base.Map
use model_validation_operato.Base.Map.{Map}
use model_validation_operato.Kube.{found}
use model_validation_operato.Api.{ModelValidation, ModelValidationStatus, PodTrackingInfo}
use model_validation_operato.Tracker.Info.{ModelValidationInfo, get_pod_state}
use model_validation_operato.Tracker.Info.View.{IsWellFormed}
use model_validation_operato.Tracker.State.{StatusTracker}
use model_validation_operato.Tracker.Status.{
  do_update_status, update_tracked, new_status, status_equal, compare_pod_slices, Outcome, int32,
}
use model_validation_operato.Tracker.Status.Writes.{do_update_status-found}
use model_validation_operato.Base.{sym}
use model_validation_operato.Base.{Option-cases}
use model_validation_operato.Tracker.Status.Listing.{
  lists_of, only_in, IsListing, length-compare_pod_slices, lists_of-status_equal, lists-sorted_pods,
  sorted_pods-IsListing, IsListing-compare_pod_slices,
}

-- A status that is what the tracker knows: each pod in the list of its state and in no other list,
-- the entries of each list by name and UID, the numbers of pods (as 32-bit integers), the method.
pub record IsCurrent (info : ModelValidationInfo) (s : ModelValidationStatus) : Type 0 where
  pub listed : (u : String) → lists_of u s ≡ only_in (get_pod_state u info)
  pub of_injected : IsListing info.injected_pods s.injected_pods
  pub of_uninjected : IsListing info.uninjected_pods s.uninjected_pods
  pub of_orphaned : IsListing info.orphaned_pods s.orphaned_pods
  pub injected_pod_count : s.injected_pod_count ≡ int32 (length s.injected_pods)
  pub uninjected_pod_count : s.uninjected_pod_count ≡ int32 (length s.uninjected_pods)
  pub orphaned_pod_count : s.orphaned_pod_count ≡ int32 (length s.orphaned_pods)
  pub auth_method : s.auth_method ≡ info.auth_method

lists_of-new_status :
    (u : String) (mv : ModelValidation) (info : ModelValidationInfo) (now : ℕ)
    → IsWellFormed info
    → lists_of u (new_status mv info now)
      ≡ (Map.has u info.injected_pods, Map.has u info.orphaned_pods, Map.has u info.uninjected_pods)
unfolding new_status
lists_of-new_status u mv info now w =
    rw
      (
        lists-sorted_pods u info.injected_pods w.injected_nodup (λ k p e. (w.of_injected k p e).0),
        lists-sorted_pods u info.orphaned_pods w.orphaned_nodup (λ k p e. (w.of_orphaned k p e).0),
        lists-sorted_pods u info.uninjected_pods w.uninjected_nodup w.of_uninjected,
      )
      refl

-- On a well-formed resource a pod is in the map of its state and in no other one.
only_in-get_pod_state :
    (u : String) (info : ModelValidationInfo)
    → IsWellFormed info
    → (Map.has u info.injected_pods, Map.has u info.orphaned_pods, Map.has u info.uninjected_pods)
      ≡ only_in (get_pod_state u info)
unfolding get_pod_state Map.has
only_in-get_pod_state u info w = elim (Option-cases (Map.get u info.injected_pods)) [
  | inr (p, e) ↦ let (_, o, n, _) = w.of_injected u p e in ground (arith, e, o, n)
  | inl e ↦ elim (Option-cases (Map.get u info.orphaned_pods)) [
    | inr (p, o) ↦ let (_, n) = w.of_orphaned u p o in ground (arith, e, o, n)
    | inl o ↦ elim (Option-cases (Map.get u info.uninjected_pods)) [
      | inl n ↦ ground (arith, e, o, n)
      | inr (p, n) ↦ ground (arith, e, o, n)
    ]
  ]
]

new_status-IsCurrent :
    (mv : ModelValidation) (info : ModelValidationInfo) (now : ℕ)
    → IsWellFormed info
    → IsCurrent info (new_status mv info now)
unfolding new_status
new_status-IsCurrent mv info now w = record {
  listed = λ u. lists_of-new_status u mv info now w ∙ only_in-get_pod_state u info w;
  of_injected = sorted_pods-IsListing info.injected_pods;
  of_uninjected = sorted_pods-IsListing info.uninjected_pods;
  of_orphaned = sorted_pods-IsListing info.orphaned_pods;
  injected_pod_count = refl;
  uninjected_pod_count = refl;
  orphaned_pod_count = refl;
  auth_method = refl;
}

-- What the code finds equal: the counts, the method, and the three lists.
status_equal_cases :
    (a b : ModelValidationStatus)
    → status_equal a b ≡ true
    → (a.injected_pod_count ≡ b.injected_pod_count)
      × (a.uninjected_pod_count ≡ b.uninjected_pod_count)
      × (a.orphaned_pod_count ≡ b.orphaned_pod_count)
      × (a.auth_method ≡ b.auth_method)
      × (compare_pod_slices a.injected_pods b.injected_pods ≡ true)
      × (compare_pod_slices a.uninjected_pods b.uninjected_pods ≡ true)
      × (compare_pod_slices a.orphaned_pods b.orphaned_pods ≡ true)
unfolding status_equal
status_equal_cases a b h = ground arith

count_transfers :
    (xs ys : List PodTrackingInfo) (n m : ℕ)
    → compare_pod_slices xs ys ≡ true
    → n ≡ m
    → m ≡ int32 (length ys)
    → n ≡ int32 (length xs)
count_transfers xs ys n m h e c = e ∙ c ∙ ap int32 (sym (length-compare_pod_slices xs ys h))

status_equal-IsCurrent :
    (info : ModelValidationInfo) (a b : ModelValidationStatus)
    → status_equal a b ≡ true
    → IsCurrent info b
    → IsCurrent info a
status_equal-IsCurrent info a b h c =
    let (ni, nu, nd, m, i, n, o) = status_equal_cases a b h in
    record {
      listed = λ u. lists_of-status_equal u a b h ∙ c.listed u;
      of_injected =
          IsListing-compare_pod_slices info.injected_pods a.injected_pods b.injected_pods i
            c.of_injected;
      of_uninjected =
          IsListing-compare_pod_slices info.uninjected_pods a.uninjected_pods b.uninjected_pods n
            c.of_uninjected;
      of_orphaned =
          IsListing-compare_pod_slices info.orphaned_pods a.orphaned_pods b.orphaned_pods o
            c.of_orphaned;
      injected_pod_count =
          count_transfers a.injected_pods b.injected_pods a.injected_pod_count b.injected_pod_count
            i ni c.injected_pod_count;
      uninjected_pod_count =
          count_transfers a.uninjected_pods b.uninjected_pods a.uninjected_pod_count
            b.uninjected_pod_count n nu c.uninjected_pod_count;
      orphaned_pod_count =
          count_transfers a.orphaned_pods b.orphaned_pods a.orphaned_pod_count b.orphaned_pod_count
            o nd c.orphaned_pod_count;
      auth_method = m ∙ c.auth_method;
    }

-- The status that the resource has after an update: the one that was sent, or else its own.
abbrev pub stored_after : ModelValidation → Outcome → ModelValidationStatus
stored_after mv o = elim o.sent [ some s ↦ s | none ↦ mv.status ]

stored_after-update_tracked :
    (digest : String → String) (write : ModelValidationStatus → Option String) (now : ℕ)
    (key : NamespacedName) (mv : ModelValidation) (info : ModelValidationInfo) (st : StatusTracker)
    → (update_tracked digest write now key mv info st).error ≡ none
    → let s = stored_after mv (update_tracked digest write now key mv info st) in
      (s ≡ new_status mv info now)
      ⊎ ((s ≡ mv.status) × (status_equal s (new_status mv info now) ≡ true))
unfolding update_tracked
stored_after-update_tracked digest write now key mv info st e = ground arith

-- Whenever an update of a tracked resource ends without an error, the status that the resource then
-- has is what the tracker knows.
pub stored_after-IsCurrent :
    (digest : String → String) (write : ModelValidationStatus → Option String) (now : ℕ)
    (key : NamespacedName) (mv : ModelValidation) (info : ModelValidationInfo) (st : StatusTracker)
    → IsWellFormed info
    → Map.get key st.model_validations ≡ some info
    → (do_update_status digest write now key (found mv) st).error ≡ none
    → IsCurrent info (stored_after mv (do_update_status digest write now key (found mv) st))
stored_after-IsCurrent digest write now key mv info st w t e =
    let same = do_update_status-found digest write now key mv info st t in
    let current = new_status-IsCurrent mv info now w in
    rw same (elim (stored_after-update_tracked digest write now key mv info st (rw (← same) e)) [
      | inl sent ↦ rw sent current
      | inr (_, equal) ↦ status_equal-IsCurrent info _ (new_status mv info now) equal current
    ])
