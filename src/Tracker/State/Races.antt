-- ===== src/Tracker/State/Races.antt =====
-- internal/tracker/status_tracker.go: the goroutine that seeds a resource from a list of pods runs
-- beside the events of the same pods.
use model_validation_operato.Base.{
  ◌≡◌, ◌≢◌, ◌⊎◌, ◌∙◌, refl, ap, String, Bool, Option, none, some, arith, NamespacedName, key_eq,
  string_eq, ◌==◌, inl, inr, Bool-cases,
}
use model_validation_operato.Base.Map
use model_validation_operato.Metrics.{untracked}
use model_validation_operato.Tracker.Info.View.{view_state}
use model_validation_operato.Constants.{model_validation_label}
use model_validation_operato.Kube.{Pod, Finalizers}
use model_validation_operato.Tracker.Info.{PodInfo, ModelValidationInfo}
use model_validation_operato.Tracker.State.{StatusTracker, text_at, pod_info_of, pod_key}
use model_validation_operato.Tracker.State.Spec.{
  Entry, Known, files, on_some, learn, state_of, idle, forgets, forget, state_in,
}
use model_validation_operato.Tracker.State.Views.{classify}
use model_validation_operato.Tracker.State.Refines.{finalized, known_of, entry_of, entry_at}
use model_validation_operato.Tracker.State.Runs.{
  TrackerEvent, pod_seen, pod_seeded, pod_gone, notice, track_event, known-track_event, step_of,
}
use model_validation_operato.Tracker.State.Reach.{Step-IsConsistent}
use model_validation_operato.Tracker.State.Consistent.{IsConsistent}
use model_validation_operato.Tracker.Mapping.{get_uid_by_name}

-- What is known of a pod that is forgotten, and of a pod that is filed.
state_in-forgets :
    (key : NamespacedName) (uid : String) (known : Known)
    → state_in key uid (learn (forgets uid) known) ≡ untracked
state_in-forgets key uid known = of (known key)
  where
    of :
        (o : Option Entry)
        → (elim (on_some (forget uid) o) [ none ↦ untracked | some e ↦ view_state (e.pods uid) ])
          ≡ untracked
    of none = refl
    of (some e) = ground arith

state_in-files :
    (key : NamespacedName) (s : Bool) (p : PodInfo) (e : Entry) (known : Known)
    → known key ≡ some e
    → state_in key p.uid (learn (files key s p) known) ≡ state_of s p e
state_in-files key s p e known h = ground (arith, h)

-- The event files the pod, if it files one: as an event of its own, or from the list.
pub data Files : TrackerEvent → Pod → Type 0 where
  seen : (pod : Pod) → Files (pod_seen pod) pod
  seeded : (pod : Pod) (key : NamespacedName) → Files (pod_seeded pod key) pod

module _ (digest : String → String) (F : Finalizers) where
  -- Where it files the pod, if anywhere.
  abbrev Filing : TrackerEvent → Pod → Type 0
  Filing e pod =
      ((st : StatusTracker) → notice digest F e st ≡ idle)
      ⊎ ((key : NamespacedName) × ((st : StatusTracker)
            → notice digest F e st ≡ files key (finalized F pod) (pod_info_of pod)))

  -- A list of pods can be older than the events: when the reconciler has found that a listed pod is
  -- gone and had it removed by its name, under which the tracker knew its UID, the filing of the pod
  -- from the list makes the tracker have it again under the resource, in the state that its finalizer
  -- and its annotations ask for.
  pub seeding_revives :
      (pod : Pod) (key : NamespacedName) (info : ModelValidationInfo) (st : StatusTracker)
      → IsConsistent st
      → text_at model_validation_label pod.labels ≢ ""
      → Map.get key st.model_validations ≡ some info
      → get_uid_by_name (pod_key (pod_info_of pod)) st.pod_mapping ≡ some pod.uid
      → let gone = track_event digest F (pod_gone (pod_key (pod_info_of pod))) st in
        (state_in key pod.uid (known_of gone) ≡ untracked)
        × (state_in key pod.uid (known_of (track_event digest F (pod_seeded pod key) gone))
            ≡ classify F pod info)
  seeding_revives pod key info st c n t m =
      let removed = pod_gone (pod_key (pod_info_of pod)) in
      let gone = track_event digest F removed st in
      let forgotten : known_of gone ≡ learn (forgets pod.uid) (known_of st) =
        known-track_event digest F removed st c
        ∙ ap (λ u. learn (elim u [ none ↦ idle | some v ↦ forgets v ]) (known_of st)) m in
      let c' = Step-IsConsistent digest F (step_of digest F removed st) c in
      let again = known-track_event digest F (pod_seeded pod key) gone c' in
      let left : known_of gone key ≡ some (forget pod.uid (entry_of info)) =
        ap (λ known. known key) forgotten ∙ ap (on_some (forget pod.uid)) (ap entry_at t) in
      (
        ap (state_in key pod.uid) forgotten ∙ state_in-forgets key pod.uid (known_of st),
        ap (state_in key pod.uid) again
            ∙ (elim (Bool-cases (text_at model_validation_label pod.labels == "")) [
              | inl e ↦ absurd (ground arith)
              | inr e ↦ rw e (
                  state_in-files key (finalized F pod) (pod_info_of pod)
                    (forget pod.uid (entry_of info)) (known_of gone) left)
            ]),
      )
