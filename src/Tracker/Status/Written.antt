-- ===== src/Tracker/Status/Written.antt =====
-- internal/tracker/status_tracker.go, from the events of pods and resources to the status of the
-- resource on the API server.
use model_validation_operato.Base.{
  ◌≡◌, ◌≢◌, ◌∙◌, refl, ap, ℕ, String, Option, none, some, List, arith, NamespacedName, key_eq,
  string_eq, nat_eq, ◌==◌, if◌then◌else◌, inl, inr, Option-cases,
}
use model_validation_operato.Base.Map
use model_validation_operato.Kube.{Pod, Finalizers, found}
use model_validation_operato.Api.{ModelValidation, ModelValidationStatus}
use model_validation_operato.Api.Hash.{get_config_hash}
use model_validation_operato.Api.Method.{get_auth_method}
use model_validation_operato.Metrics.{untracked}
use model_validation_operato.Tracker.Info.{ModelValidationInfo, new_model_validation_info}
use model_validation_operato.Tracker.Info.View.{view_state, get_pod_state-view}
use model_validation_operato.Tracker.State.{
  StatusTracker, add_model_validation, process_pod_event, process_seed_pods, mv_key, info_of,
  new_status_tracker,
}
use model_validation_operato.Tracker.State.Consistent.{IsConsistent, IsConsistent-new}
use model_validation_operato.Tracker.State.Invariant.{
  process_pod_event-IsConsistent, process_seed_pods-IsConsistent, add_model_validation-IsConsistent,
}
use model_validation_operato.Tracker.State.Views.{
  named_by, view_in, view_at, classify, view_at-process_pod_event, view_at-add_model_validation,
}
use model_validation_operato.Tracker.State.Seeding.{
  last_seen, seeded, config_of, config_of-process_pod_event, view_at-process_seed_pods,
  config_of-process_seed_pods, get-add_model_validation_new,
}
use model_validation_operato.Tracker.State.Spec.{state_in}
use model_validation_operato.Tracker.State.Refines.{entry_at}
use model_validation_operato.Tracker.State.Runs.{
  TrackerEvent, track_events, track_events-IsConsistent,
}
use model_validation_operato.Tracker.State.Belief.{no_belief, tell_all}
use model_validation_operato.Tracker.State.Believed.{known_as_specified}
use model_validation_operato.Tracker.Status.{
  Outcome, do_update_status, update_tracked, new_status, send,
}
use model_validation_operato.Tracker.Status.Writes.{do_update_status-found}
use model_validation_operato.Tracker.Status.Stored.{stored_after, stored_after-IsCurrent}
use model_validation_operato.Tracker.Status.Listing.{listed_state}
use model_validation_operato.Tracker.Status.Listing.{lists_of, only_in, listed_state-lists_of}

-- The state of a pod that was filed, for a resource that had no pods.
seeded_state :
    (F : Finalizers) (o : Option Pod) (key : NamespacedName) (u : String)
    (info : ModelValidationInfo) (st : StatusTracker)
    → Map.get key st.model_validations ≡ some info
    → view_at key u st ≡ none
    → view_state (seeded F o key key u st)
      ≡ (elim o [ none ↦ untracked | some pod ↦ classify F pod info ])
seeded_state F none key u info st t e = ap view_state e
seeded_state F (some pod) key u info st t e = ground arith

-- The state that the tracker has is the state that is known.
state_of_entry :
    (u : String) (o : Option ModelValidationInfo)
    → view_state (view_in u o)
      ≡ (elim (entry_at o) [ none ↦ untracked | some e ↦ view_state (e.pods u) ])
state_of_entry u none = refl
state_of_entry u (some info) = refl

module _ (digest : String → String) (write : ModelValidationStatus → Option String) (now : ℕ) where
  -- An update that finds the resource.
  abbrev pub update : NamespacedName → ModelValidation → StatusTracker → Outcome
  update key mv st = do_update_status digest write now key (found mv) st

  -- The status that the resource has after it.
  abbrev pub status_after : NamespacedName → ModelValidation → StatusTracker → ModelValidationStatus
  status_after key mv st = stored_after mv (update key mv st)

  -- The status after an update has each pod in the list of the state that the tracker has for it.
  pub lists_of-stored_after :
      (u : String) (key : NamespacedName) (mv : ModelValidation) (st : StatusTracker)
      → IsConsistent st
      → Map.get key st.model_validations ≢ none
      → (update key mv st).error ≡ none
      → lists_of u (status_after key mv st) ≡ only_in (view_state (view_at key u st))
  lists_of-stored_after u key mv st c n e = elim (Option-cases (Map.get key st.model_validations)) [
    | inl absent ↦ absurd (n absent)
    | inr (info, t) ↦
        let current =
          stored_after-IsCurrent digest write now key mv info st (c.infos key info t) t e in
        current.listed u ∙ ap only_in (get_pod_state-view u info) ∙ rw t refl
  ]

  pub listed_state-stored_after :
      (u : String) (key : NamespacedName) (mv : ModelValidation) (st : StatusTracker)
      → IsConsistent st
      → Map.get key st.model_validations ≢ none
      → (update key mv st).error ≡ none
      → listed_state u (status_after key mv st) ≡ view_state (view_at key u st)
  listed_state-stored_after u key mv st c n e =
      listed_state-lists_of u (status_after key mv st) (view_state (view_at key u st))
        (lists_of-stored_after u key mv st c n e)

  error-update_tracked :
      (key : NamespacedName) (mv : ModelValidation) (info : ModelValidationInfo)
      (st : StatusTracker)
      → info.config_hash ≡ get_config_hash digest mv
      → info.auth_method ≡ get_auth_method mv
      → ((s : ModelValidationStatus) → write s ≡ none)
      → (update_tracked digest write now key mv info st).error ≡ none
  unfolding update_tracked send
  error-update_tracked key mv info st h a w = ground (arith, w (new_status mv info now))

  -- With a current configuration, and an API server that takes the status, an update has no error.
  pub error-do_update_status :
      (key : NamespacedName) (mv : ModelValidation) (st : StatusTracker)
      → config_of (Map.get key st.model_validations)
        ≡ some (get_config_hash digest mv, get_auth_method mv, mv.generation)
      → ((s : ModelValidationStatus) → write s ≡ none)
      → (update key mv st).error ≡ none
  error-do_update_status key mv st h w = elim (Option-cases (Map.get key st.model_validations)) [
    | inl absent ↦ absurd (ground arith)
    | inr (info, t) ↦
        rw (do_update_status-found digest write now key mv info st t)
          (error-update_tracked key mv info st (ground arith) (ground arith) w)
  ]

  -- After the event of a labelled pod of a tracked resource, an update of the resource that ends
  -- without an error leaves it with a status that lists the pod in the state that its finalizer and
  -- its annotations ask for under the tracked configuration, and every other pod in the state that
  -- the tracker had for it.
  pub pod_event_written :
      (F : Finalizers) (u : String) (pod : Pod) (info : ModelValidationInfo) (mv : ModelValidation)
      (st : StatusTracker)
      → IsConsistent st
      → (named_by pod).name ≢ ""
      → Map.get (named_by pod) st.model_validations ≡ some info
      → (update (named_by pod) mv (process_pod_event F pod st)).error ≡ none
      → listed_state u (status_after (named_by pod) mv (process_pod_event F pod st))
        ≡ (if u == pod.uid then classify F pod info else view_state (view_at (named_by pod) u st))
  pod_event_written F u pod info mv st c n t e =
      let key = named_by pod in
      let st' = process_pod_event F pod st in
      let config = config_of-process_pod_event F pod st in
      let seen = view_at-process_pod_event F key u pod st c in
      listed_state-stored_after u key mv st' (process_pod_event-IsConsistent F pod st c)
        (λ h. absurd (ground arith)) e
      ∙ ground arith

  -- When a resource that was not tracked is added and its pods are seeded from the list of the API
  -- server, an update of the resource has no error, if the API server takes the status, and leaves
  -- it with a status that has each UID of a labelled pod of the list in exactly one of its lists: that
  -- of the state which the finalizer and the annotations of the last such pod ask for under the
  -- configuration of the resource. Any other UID is in none of them.
  pub seeding_written :
      (F : Finalizers) (u : String) (pods : List Pod) (mv : ModelValidation) (st : StatusTracker)
      → IsConsistent st
      → Map.get (mv_key mv) st.model_validations ≡ none
      → ((s : ModelValidationStatus) → write s ≡ none)
      → let seeded = process_seed_pods F pods (mv_key mv) (add_model_validation digest mv st) in
        ((update (mv_key mv) mv seeded).error ≡ none)
        × (lists_of u (status_after (mv_key mv) mv seeded)
            ≡ only_in (elim (last_seen u pods) [
              | none ↦ untracked
              | some pod ↦ classify F pod (info_of digest mv)
            ]))
  unfolding new_model_validation_info
  seeding_written F u pods mv st c n w =
      let key = mv_key mv in
      let st1 = add_model_validation digest mv st in
      let st2 = process_seed_pods F pods key st1 in
      let c1 = add_model_validation-IsConsistent digest mv st c in
      let c2 = process_seed_pods-IsConsistent F pods key st1 c1 in
      let new = get-add_model_validation_new digest mv st n in
      let config = config_of-process_seed_pods F pods key st1 ∙ ap config_of new in
      let e = error-do_update_status key mv st2 config w in
      let empty : view_at key u st1 ≡ none =
        ground (arith, view_at-add_model_validation digest key u mv st c) in
      let seeds = view_at-process_seed_pods F key u pods key st1 c1 in
      (
        e,
        lists_of-stored_after u key mv st2 c2 (λ h. absurd (ground arith)) e
            ∙ ap only_in (
                ap view_state seeds
                ∙ seeded_state F (last_seen u pods) key u (info_of digest mv) st1 new empty),
      )

  -- The tracker after some events.
  abbrev pub ran : Finalizers → List TrackerEvent → StatusTracker
  ran F es = track_events digest F es new_status_tracker

  -- After any sequence of events, in any order, an update of a tracked resource that ends without an
  -- error leaves the resource with a status that has each UID in the list of the state that the
  -- specification makes of the events alone, and in no other list; and in none when the
  -- specification has no pod with this UID under the resource.
  pub run_written :
      (F : Finalizers) (es : List TrackerEvent) (u : String) (key : NamespacedName)
      (mv : ModelValidation)
      → Map.get key (ran F es).model_validations ≢ none
      → (update key mv (ran F es)).error ≡ none
      → lists_of u (status_after key mv (ran F es))
        ≡ only_in (state_in key u (tell_all digest F es no_belief).known)
  run_written F es u key mv n e =
      let c = track_events-IsConsistent digest F es new_status_tracker IsConsistent-new in
      lists_of-stored_after u key mv (ran F es) c n e
      ∙ ap only_in (
          state_of_entry u (Map.get key (ran F es).model_validations)
          ∙ ap (state_in key u) (known_as_specified digest F es).0)
