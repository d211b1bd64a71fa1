-- ===== src/Tracker/State/Runs.antt =====
-- internal/tracker/status_tracker.go: a run of events, and what each does to the resources.
use model_validation_operato.Base.{
  ◌≡◌, refl, String, none, some, List, [], ◌∷◌, NamespacedName, key_eq, string_eq, ◌==◌,
  if◌then◌else◌, inl, inr, Option-cases, Bool-cases,
}
use model_validation_operato.Constants.{model_validation_label}
use model_validation_operato.Kube.{Pod, Finalizers}
use model_validation_operato.Api.{ModelValidation}
use model_validation_operato.Tracker.Mapping.{get_uid_by_name}
use model_validation_operato.Tracker.State.{
  StatusTracker, add_model_validation, remove_model_validation, process_pod_event,
  process_seed_pod_event, remove_pod_event, remove_pod_by_name, pod_info_of, text_at,
}
use model_validation_operato.Tracker.State.Consistent.{IsConsistent}
use model_validation_operato.Tracker.State.Reach
use model_validation_operato.Tracker.State.Reach.{Step, Step-IsConsistent}
use model_validation_operato.Tracker.State.Views.{named_by}
use model_validation_operato.Tracker.State.Spec.{Notice, files, untracks, forgets, idle, learn}
use model_validation_operato.Tracker.State.Refines.{
  known_of, known-remove_pod_event, known-remove_model_validation, known-process_for,
  known-add_model_validation, finalized, tracks_mv,
}

-- What the tracker is told.
pub data TrackerEvent : Type 0 where
  mv_added : ModelValidation → TrackerEvent
  mv_removed : NamespacedName → TrackerEvent
  pod_seen : Pod → TrackerEvent
  pod_seeded : Pod → NamespacedName → TrackerEvent
  pod_deleted : String → TrackerEvent
  pod_gone : NamespacedName → TrackerEvent

module _ (digest : String → String) (F : Finalizers) where
  abbrev pub track_event : TrackerEvent → StatusTracker → StatusTracker
  track_event (mv_added mv) st = add_model_validation digest mv st
  track_event (mv_removed key) st = remove_model_validation key st
  track_event (pod_seen pod) st = process_pod_event F pod st
  track_event (pod_seeded pod key) st = process_seed_pod_event F pod key st
  track_event (pod_deleted uid) st = remove_pod_event uid st
  track_event (pod_gone name) st = remove_pod_by_name name st

  -- What an event means for the resources of a tracker, with the UID that its mapping of the pods has
  -- for a name; which UID that is by the events alone is Tracker/State/Belief. A pod counts under the
  -- resource that its label names, in its own namespace, or under the resource for which it was
  -- listed; a pod without a label says nothing.
  abbrev pub notice : TrackerEvent → StatusTracker → Notice
  notice (mv_added mv) st = tracks_mv digest mv
  notice (mv_removed key) st = untracks key
  notice (pod_seen pod) st =
      if text_at model_validation_label pod.labels == ""
      then idle
      else files (named_by pod) (finalized F pod) (pod_info_of pod)
  notice (pod_seeded pod key) st =
      if text_at model_validation_label pod.labels == ""
      then idle
      else files key (finalized F pod) (pod_info_of pod)
  notice (pod_deleted uid) st = forgets uid
  notice (pod_gone name) st = elim (get_uid_by_name name st.pod_mapping) [
    | none ↦ idle
    | some uid ↦ forgets uid
  ]

  pub step_of : (e : TrackerEvent) (st : StatusTracker) → Step digest F st (track_event e st)
  step_of (mv_added mv) st = Reach.mv_added mv
  step_of (mv_removed key) st = Reach.mv_removed key
  step_of (pod_seen pod) st = Reach.pod_seen pod
  step_of (pod_seeded pod key) st = Reach.pod_seeded pod key
  step_of (pod_deleted uid) st = Reach.pod_deleted uid
  step_of (pod_gone name) st = Reach.pod_gone name

  pub known-track_event :
      (e : TrackerEvent) (st : StatusTracker)
      → IsConsistent st
      → known_of (track_event e st) ≡ learn (notice e st) (known_of st)
  unfolding process_pod_event process_seed_pod_event remove_pod_by_name
  known-track_event (mv_added mv) st c = known-add_model_validation digest mv st c
  known-track_event (mv_removed key) st c = known-remove_model_validation key st
  known-track_event (pod_seen pod) st c =
      elim (Bool-cases (text_at model_validation_label pod.labels == "")) [
        | inl e ↦ rw e refl
        | inr e ↦ rw e (known-process_for F pod (named_by pod) st c)
      ]
  known-track_event (pod_seeded pod key) st c =
      elim (Bool-cases (text_at model_validation_label pod.labels == "")) [
        | inl e ↦ rw e refl
        | inr e ↦ rw e (known-process_for F pod key st c)
      ]
  known-track_event (pod_deleted uid) st c = known-remove_pod_event uid st c
  known-track_event (pod_gone name) st c =
      elim (Option-cases (get_uid_by_name name st.pod_mapping)) [
        | inl e ↦ rw (e, learn, remove_pod_by_name) refl
        | inr (uid, e) ↦ rw (e, learn, remove_pod_by_name) (known-remove_pod_event uid st c)
      ]

  -- The tracker after some events.
  abbrev pub track_events : List TrackerEvent → StatusTracker → StatusTracker
  track_events [] st = st
  track_events (e ∷ es) st = track_events es (track_event e st)

  pub track_events-IsConsistent :
      (es : List TrackerEvent) (st : StatusTracker)
      → IsConsistent st
      → IsConsistent (track_events es st)
  track_events-IsConsistent [] st c = c
  track_events-IsConsistent (e ∷ es) st c =
      track_events-IsConsistent es (track_event e st) (Step-IsConsistent digest F (step_of e st) c)
