-- ===== src/Controller/Pods/Laws.antt =====
-- internal/controller/pod_controller.go: what the reconciler of pods achieves.
use model_validation_operato.Base.{
  ◌≡◌, ◌≢◌, ◌∙◌, ap, refl, sym, subst, String, false, Option, none, some, List, arith, inl, inr,
  ◌==◌, string_eq, Bool-cases, Option-cases, NamespacedName, ℕ, key_eq, option_eq,
}
use model_validation_operato.Constants.{model_validation_label, model_validation_finalizer}
use model_validation_operato.Kube.{Pod, Fetch, found, not_found, failed, Finalizers, IsLawful}
use model_validation_operato.Tracker.State.{StatusTracker, text_at, process_pod_event}
use model_validation_operato.Tracker.State.Invariant.{
  process_pod_event-IsConsistent, remove_pod_event-IsConsistent, remove_pod_by_name-IsConsistent,
}
use model_validation_operato.Tracker.State.Consistent.{IsConsistent}
use model_validation_operato.Tracker.State.Views.{view_at, view_at-remove_pod_event}
use model_validation_operato.Controller.{Reconciled, done, retry}
use model_validation_operato.Controller.Pods.{
  Outcome, reconcile, reconcile_found, reconcile_live, reconcile_deleted, reconcile_unlabelled,
  drop_finalizer, without_finalizer,
}

module _ (F : Finalizers) (update : Pod → Option String) where
  reconcile_found-IsConsistent :
      (key : NamespacedName) (pod : Pod) (st : StatusTracker) (t : Option ℕ)
      → IsConsistent st
      → IsConsistent (reconcile_found F update key pod st t).tracker
  unfolding reconcile_live reconcile_deleted reconcile_unlabelled
  reconcile_found-IsConsistent key pod st (some t) c = remove_pod_event-IsConsistent pod.uid st c
  reconcile_found-IsConsistent key pod st none c =
      ground
        (arith, process_pod_event-IsConsistent F pod st c, remove_pod_by_name-IsConsistent key st c)

  -- The reconciler keeps the tracker consistent, whatever it finds.
  pub reconcile-IsConsistent :
      (key : NamespacedName) (pod : Fetch Pod) (st : StatusTracker)
      → IsConsistent st
      → IsConsistent (reconcile F update key pod st).tracker
  unfolding reconcile
  reconcile-IsConsistent key (found pod) st c =
      reconcile_found-IsConsistent key pod st pod.deletion_timestamp c
  reconcile-IsConsistent key not_found st c = remove_pod_by_name-IsConsistent key st c
  reconcile-IsConsistent key (failed e) st c = c

  -- The finalizer is gone, unless the write failed.
  abbrev IsReleased : Pod → Option (List String) → Option String → Type 0
  IsReleased pod (some fs) error =
      (F.contains model_validation_finalizer fs ≡ false) × (error ≡ none)
  IsReleased pod none none = F.contains model_validation_finalizer pod.finalizers ≡ false
  IsReleased pod none (some e) = update (without_finalizer F update pod) ≡ some e

  abbrev error_of : Reconciled → Option String
  error_of done = none
  error_of (retry e) = some e

  error_of-deleted :
      (pod : Pod) (st : StatusTracker)
      → error_of (reconcile_deleted F update pod st).answer ≡ (drop_finalizer F update pod).1
  unfolding reconcile_deleted
  error_of-deleted pod st = elim (Option-cases (drop_finalizer F update pod).1) [
    | inl e ↦ rw (e, reconcile_deleted) refl
    | inr (m, e) ↦ rw (e, reconcile_deleted) refl
  ]

  module _ (lawful : IsLawful F) where
    drop_finalizer-IsReleased :
        (pod : Pod) → IsReleased pod (drop_finalizer F update pod).0 (drop_finalizer F update pod).1
    unfolding drop_finalizer
    drop_finalizer-IsReleased pod =
        elim (Bool-cases (F.contains model_validation_finalizer pod.finalizers)) [
          | inr e ↦ rw (e, drop_finalizer) e
          | inl e ↦ elim (Option-cases (update (without_finalizer F update pod))) [
            | inl f ↦
                rw (e, drop_finalizer, f)
                  (lawful.contains-remove model_validation_finalizer pod.finalizers, refl)
            | inr (m, f) ↦ rw (e, drop_finalizer, f) f
          ]
        ]

    -- No resource keeps the pod, and the pod lost the finalizer or its write failed.
    abbrev pub IsLetGo : Pod → Outcome → Type 0
    IsLetGo pod o =
        ((j : NamespacedName) → view_at j pod.uid o.tracker ≡ none)
        × IsReleased pod o.written (error_of o.answer)

    reconcile_deleted-IsLetGo :
        (pod : Pod) (st : StatusTracker)
        → IsConsistent st
        → IsLetGo pod (reconcile_deleted F update pod st)
    unfolding reconcile_deleted
    reconcile_deleted-IsLetGo pod st c = (
      λ j. view_at-remove_pod_event j pod.uid pod.uid st c ∙ ground arith,
      subst (IsReleased pod (drop_finalizer F update pod).0) (sym (error_of-deleted pod st))
          (drop_finalizer-IsReleased pod),
    )

    -- When a pod is being deleted, no resource keeps it in any state, and it loses the finalizer,
    -- or the write failed and its error is the answer, by which the pod is tried again.
    pub reconcile-IsLetGo :
        (key : NamespacedName) (pod : Pod) (t : ℕ) (st : StatusTracker)
        → IsConsistent st
        → pod.deletion_timestamp ≡ some t
        → IsLetGo pod (reconcile F update key (found pod) st)
    unfolding reconcile
    reconcile-IsLetGo key pod t st c h =
        subst (IsLetGo pod) (sym (ap (reconcile_found F update key pod st) h))
          (reconcile_deleted-IsLetGo pod st c)

  live :
      (key : NamespacedName) (pod : Pod) (st : StatusTracker)
      → text_at model_validation_label pod.labels ≢ ""
      → reconcile_live F update key pod st
        ≡ record { tracker = process_pod_event F pod st; written = none; answer = done }
  unfolding reconcile_live
  live key pod st k = elim (Bool-cases (text_at model_validation_label pod.labels == "")) [
    | inl e ↦ absurd (k (ground (arith, e)))
    | inr e ↦ rw (e, reconcile_live) refl
  ]

  -- A pod with a resource's label that is not being deleted is never written, so that it keeps its
  -- finalizer, and the tracker sees its event.
  pub reconcile_keeps :
      (key : NamespacedName) (pod : Pod) (st : StatusTracker)
      → pod.deletion_timestamp ≡ none
      → text_at model_validation_label pod.labels ≢ ""
      → reconcile F update key (found pod) st
        ≡ record { tracker = process_pod_event F pod st; written = none; answer = done }
  unfolding reconcile
  reconcile_keeps key pod st h k = ap (reconcile_found F update key pod st) h ∙ live key pod st k
