-- ===== src/Tracker/Status/Unordered.antt =====
-- internal/tracker/status_tracker.go: a tracked resource with its maps as Go has them, without an
-- order: the class of all orders in which `range` can visit them. What an update decides is a
-- function of this class.
use mathlib.Core.HLevel.{hedberg}
use mathlib.Core.List.Perm
use mathlib.Core.Quot.{Quot, mk, lift}
use model_validation_operato.Base.{
  ◌≡◌, refl, ℕ, String, Option, some, NamespacedName, key_eq, string_eq, nat_eq, option_eq, bool_eq,
  arith,
}
use model_validation_operato.Base.Map
use model_validation_operato.Kube.{found}
use model_validation_operato.Api.{ModelValidation, ModelValidationStatus}
use model_validation_operato.Tracker.Info.{ModelValidationInfo}
use model_validation_operato.Tracker.State.{StatusTracker, new_status_tracker}
use model_validation_operato.Tracker.Status.{UpdateError, do_update_status, update_tracked, send}
use model_validation_operato.Tracker.Status.Writes.{do_update_status-found}
use model_validation_operato.Tracker.Status.AnyOrder.{Reordered, IsNamedApart, new_status_any_order}

-- A resource of which no two pods in one state have the same name.
abbrev pub Apart : Type 0
Apart = (m : ModelValidationInfo) × IsNamedApart m

abbrev pub SameResource : Apart → Apart → Type 0
SameResource a b = Reordered a.0 b.0

abbrev pub Unordered : Type 0
Unordered = Quot SameResource

-- What an update does outside the tracker: its error and the status that it sends.
abbrev pub Answer : Type 0
Answer = Option UpdateError × Option ModelValidationStatus

Error-discrete : Discrete UpdateError
Error-discrete = hlevel (string_eq.dec)

Status-discrete : Discrete ModelValidationStatus
Status-discrete = hlevel (string_eq.dec, nat_eq.dec)

Answer-discrete : Discrete Answer
Answer-discrete = hlevel (Error-discrete, Status-discrete)

-- Every order is an order of itself.
Reordered-refl : (m : ModelValidationInfo) → Reordered m m
Reordered-refl m = record {
  config_hash = refl;
  auth_method = refl;
  injected_pods = Perm.refl m.injected_pods;
  uninjected_pods = Perm.refl m.uninjected_pods;
  orphaned_pods = Perm.refl m.orphaned_pods;
}

module _ (digest : String → String) (write : ModelValidationStatus → Option String) (now : ℕ)
    (key : NamespacedName) (mv : ModelValidation) where
  abbrev answer : ModelValidationInfo → StatusTracker → Answer
  answer m st = let o = update_tracked digest write now key mv m st in (o.error, o.sent)

  answer-Reordered :
      (m m' : ModelValidationInfo) (st st' : StatusTracker)
      → IsNamedApart m
      → Reordered m m'
      → answer m st ≡ answer m' st'
  unfolding update_tracked send
  answer-Reordered m m' st st' d r =
      ground (arith, r.config_hash, r.auth_method, new_status_any_order mv m m' now r d)

  -- The answer for a resource whose maps have no order.
  pub decide : Unordered → Answer
  decide =
      lift (hedberg Answer-discrete) (λ a. answer a.0 new_status_tracker)
        (λ a b r. answer-Reordered a.0 b.0 new_status_tracker new_status_tracker a.1 r)

  -- What an update answers, by its error and by the status that it sends, is a function of the
  -- resource with its maps as Go has them, without an order: it is the same for every order in which
  -- the maps are visited, and for every state in which the resource is tracked with these pods, if
  -- no two pods of one state have the same name.
  pub do_update_status_decides :
      (m : ModelValidationInfo) (d : IsNamedApart m) (st : StatusTracker)
      → Map.get key st.model_validations ≡ some m
      → let o = do_update_status digest write now key (found mv) st in
        (o.error, o.sent) ≡ decide (mk (m, d))
  unfolding decide
  do_update_status_decides m d st t =
      rw (do_update_status-found digest write now key mv m st t)
        (answer-Reordered m m st new_status_tracker d (Reordered-refl m))
