-- ===== src/Tests/Controllers.antt =====
-- internal/controller at concrete objects.
use model_validation_operato.Base.{
  ◌≡◌, refl, ℕ, String, true, false, Option, none, some, [], ◌∷◌, NamespacedName, string_eq, nat_eq,
  key_eq,
}
use model_validation_operato.Base.Map.{Map}
use model_validation_operato.Base.Map
use model_validation_operato.Api.{Condition, LabelSelector}
use model_validation_operato.Kube.{Pod, found}
use model_validation_operato.Tracker.State.{get_observed_generation, new_status_tracker}
use model_validation_operato.Tracker.State.Consistent.{IsConsistent, IsConsistent-new}
use model_validation_operato.Webhook.Telemetry.{Matcher}
use model_validation_operato.Controller.Pods
use model_validation_operato.Controller.Pods.Laws.{reconcile-IsLetGo, IsLetGo}
use model_validation_operato.Controller.Resources
use model_validation_operato.Controller.Resources.Laws.{reconcile-tracks}
use model_validation_operato.Tests.Samples.{mv, key, drifted, listed, listed-IsLawful, same_text}
use model_validation_operato.Tests.Tracking.{seen, seen-IsConsistent}

abbrev accepting : Pod → Option String
accepting _ = none

abbrev pod_key : NamespacedName
pod_key = record { namespace = "default"; name = "app-1" }

abbrev going : Pod
going = record drifted { deletion_timestamp = some 99 }

reconcile-IsLetGo_example :
    IsLetGo listed accepting listed-IsLawful going
      (Pods.reconcile listed accepting pod_key (found going) seen)
reconcile-IsLetGo_example =
    reconcile-IsLetGo listed accepting listed-IsLawful pod_key going 99 seen seen-IsConsistent refl

reconcile-tracks_example :
    IsConsistent (Resources.reconcile same_text key (found mv) new_status_tracker).0
    × (get_observed_generation key
          (Resources.reconcile same_text key (found mv) new_status_tracker).0
        ≡ (1, true))
reconcile-tracks_example =
    reconcile-tracks same_text key (found mv) new_status_tracker IsConsistent-new refl

abbrev by_team : Matcher
by_team sel = some (λ labels. elim (Map.get "team" labels) [ none ↦ false | some _ ↦ true ])

abbrev any_team : LabelSelector
any_team = record { match_labels = []; match_expressions = "team" ∷ [] }

abbrev ready : ℕ → Condition
ready time = record {
  kind = "Ready";
  status = "True";
  observed_generation = 1;
  last_transition_time = time;
  reason = "SelectorsEvaluated";
  message = "Selectors evaluated successfully";
}
