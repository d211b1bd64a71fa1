-- ===== src/Tracker/Status/Rounds.antt =====
-- internal/tracker/status_tracker.go, processNextUpdate: what a round of the worker does to the
-- tracker and asks of the queue.
use model_validation_operato.Base.{
  ◌≡◌, refl, ℕ, String, Option, none, some, [], ◌∷◌, arith, NamespacedName, key_eq, string_eq,
  nat_eq, ◌++◌, inl, inr, Option-cases,
}
use model_validation_operato.Base.Map
use model_validation_operato.Kube.{Fetch, found, not_found, failed}
use model_validation_operato.Api.{ModelValidation, ModelValidationStatus}
use model_validation_operato.Tracker.State.{StatusTracker, add_with_retry, forget_retries, done}
use model_validation_operato.Tracker.State.Filed.{IsFiled, IsFiled-same, IsFiled-delete}
use model_validation_operato.Tracker.Status.{do_update_status, process_next_update}
use model_validation_operato.Tracker.Status.Writes.{model_validations-update_tracked}

queue_calls-do_update_status :
    (digest : String → String) (write : ModelValidationStatus → Option String) (now : ℕ)
    (key : NamespacedName) (fetched : Fetch ModelValidation) (st : StatusTracker)
    → (do_update_status digest write now key fetched st).tracker.queue_calls ≡ st.queue_calls
unfolding do_update_status
queue_calls-do_update_status digest write now key not_found st = refl
queue_calls-do_update_status digest write now key (failed e) st = refl
queue_calls-do_update_status digest write now key (found mv) st = ground arith

-- The worker ends every round with the key done, after a retry of the key if the update failed and
-- after it has forgotten the key's failures if not; it starts no other call of the queue.
pub process_next_update_calls :
    (digest : String → String) (write : ModelValidationStatus → Option String) (now : ℕ)
    (key : NamespacedName) (fetched : Fetch ModelValidation) (st : StatusTracker)
    → (process_next_update digest write now key fetched st).queue_calls
      ≡ st.queue_calls ++ (elim (do_update_status digest write now key fetched st).error [
        | some _ ↦ add_with_retry key ∷ done key ∷ []
        | none ↦ forget_retries key ∷ done key ∷ []
      ])
unfolding process_next_update
process_next_update_calls digest write now key fetched st =
    ground (arith, queue_calls-do_update_status digest write now key fetched st)

model_validations-do_update_status :
    (digest : String → String) (write : ModelValidationStatus → Option String) (now : ℕ)
    (key : NamespacedName) (mv : ModelValidation) (st : StatusTracker)
    → (do_update_status digest write now key (found mv) st).tracker.model_validations
      ≡ st.model_validations
unfolding do_update_status
model_validations-do_update_status digest write now key mv st =
    elim (Option-cases (Map.get key st.model_validations)) [
      | inl e ↦ ground arith
      | inr (info, e) ↦
          ground (arith, model_validations-update_tracked digest write now key mv info st)
    ]

-- A round of the worker forgets a resource that the API server does not have, and no more.
pub process_next_update-IsFiled :
    (digest : String → String) (write : ModelValidationStatus → Option String) (now : ℕ)
    (key : NamespacedName) (fetched : Fetch ModelValidation) (st : StatusTracker)
    → IsFiled st
    → IsFiled (process_next_update digest write now key fetched st)
unfolding process_next_update do_update_status
process_next_update-IsFiled digest write now key not_found st f = IsFiled-delete key st _ refl f
process_next_update-IsFiled digest write now key (failed e) st f = IsFiled-same st _ refl f
process_next_update-IsFiled digest write now key (found mv) st f =
    IsFiled-same st _
      (ground (arith, model_validations-do_update_status digest write now key mv st)) f
