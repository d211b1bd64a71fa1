-- ===== src/Controller/Pods.antt =====
-- internal/controller/pod_controller.go: how the tracker follows a pod.
pub mod Laws
use model_validation_operato.Base.{
  ℕ, String, Bool, true, false, Option, none, some, List, [], ◌∷◌, ◌==◌, string_eq, if◌then◌else◌,
  NamespacedName,
}
use model_validation_operato.Base.Map
use model_validation_operato.Constants.{model_validation_label, model_validation_finalizer}
use model_validation_operato.Kube.{Pod, Fetch, found, not_found, failed, Finalizers}
use model_validation_operato.Tracker.State.{
  StatusTracker, text_at, process_pod_event, remove_pod_event, remove_pod_by_name,
}
use model_validation_operato.Controller.{Reconciled, done, retry}

-- The finalizers that the API server keeps for the pod, when the reconciler writes them; the
-- tracker; and the answer.
pub record Outcome : Type 0 where
  pub tracker : StatusTracker
  pub written : Option (List String)
  pub answer : Reconciled

module _ (F : Finalizers) (update : Pod → Option String) where
  abbrev without_finalizer : Pod → Pod
  without_finalizer pod = record pod {
    finalizers = F.remove model_validation_finalizer pod.finalizers;
  }

  -- The write that drops the finalizer, if the pod has it; and the error of a write that failed.
  unfoldable pub drop_finalizer : Pod → Option (List String) × Option String
  drop_finalizer pod =
      if F.contains model_validation_finalizer pod.finalizers
      then elim (update (without_finalizer pod)) [
        | some e ↦ (none, some e)
        | none ↦ (some (without_finalizer pod).finalizers, none)
      ]
      else (none, none)

  unfoldable pub reconcile_deleted : Pod → StatusTracker → Outcome
  unfolding drop_finalizer
  reconcile_deleted pod st =
      let (written, error) = drop_finalizer pod in
      record {
        tracker = remove_pod_event pod.uid st;
        written = written;
        answer = elim error [ some e ↦ retry e | none ↦ done ];
      }

  unfoldable pub reconcile_unlabelled : NamespacedName → Pod → StatusTracker → Outcome
  unfolding drop_finalizer
  reconcile_unlabelled key pod st =
      let (written, error) = drop_finalizer pod in
      elim error [
        | some e ↦ record { tracker = st; written = written; answer = retry e }
        | none ↦ record { tracker = remove_pod_by_name key st; written = written; answer = done }
      ]

  unfoldable pub reconcile_live : NamespacedName → Pod → StatusTracker → Outcome
  unfolding reconcile_unlabelled
  reconcile_live key pod st =
      if text_at model_validation_label pod.labels == ""
      then reconcile_unlabelled key pod st
      else record { tracker = process_pod_event F pod st; written = none; answer = done }

  -- By whether the pod is being deleted.
  abbrev pub reconcile_found : NamespacedName → Pod → StatusTracker → Option ℕ → Outcome
  reconcile_found key pod st (some _) = reconcile_deleted pod st
  reconcile_found key pod st none = reconcile_live key pod st

  -- None of the tracker's operations on pods fails.
  unfoldable pub reconcile : NamespacedName → Fetch Pod → StatusTracker → Outcome
  unfolding reconcile_live
  reconcile key (found pod) st = reconcile_found key pod st pod.deletion_timestamp
  reconcile key not_found st = record {
    tracker = remove_pod_by_name key st;
    written = none;
    answer = done;
  }
  reconcile key (failed e) st = record { tracker = st; written = none; answer = retry e }
