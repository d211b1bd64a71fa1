-- ===== src/Controller/Resources/Laws.antt =====
-- internal/controller/modelvalidation_controller.go: the tracker agrees with the API server.
use model_validation_operato.Base.{
  ◌≡◌, refl, subst, ℕ, String, Bool, true, false, Option, none, some, nat_eq, string_eq, key_eq,
  NamespacedName,
}
use model_validation_operato.Api.{ModelValidation}
use model_validation_operato.Kube.{Fetch, found, not_found, failed}
use model_validation_operato.Tracker.State.{
  StatusTracker, mv_key, add_model_validation, get_observed_generation,
}
use model_validation_operato.Tracker.State.Invariant.{
  add_model_validation-IsConsistent, remove_model_validation-IsConsistent,
}
use model_validation_operato.Tracker.State.Consistent.{IsConsistent}
use model_validation_operato.Tracker.State.Generation.{
  get_observed_generation-add_model_validation, get_observed_generation-remove_model_validation,
}
use model_validation_operato.Controller.Resources.{reconcile, reconcile_found}

module _ (digest : String → String) where
  reconcile_found-IsConsistent :
      (key : NamespacedName) (mv : ModelValidation) (st : StatusTracker) (t : Option ℕ)
      → IsConsistent st
      → IsConsistent (reconcile_found digest key mv st t).0
  reconcile_found-IsConsistent key mv st (some _) c = remove_model_validation-IsConsistent key st c
  reconcile_found-IsConsistent key mv st none c = add_model_validation-IsConsistent digest mv st c

  -- What the tracker has to know after the lookup of the resource: the generation of a resource
  -- that lives, and nothing of one that is gone or going; a lookup that failed changes nothing.
  abbrev expected : StatusTracker → NamespacedName → Fetch ModelValidation → ℕ × Bool
  expected st key (found mv) = elim mv.deletion_timestamp [
    | some _ ↦ (0, false)
    | none ↦ (mv.generation, true)
  ]
  expected st key not_found = (0, false)
  expected st key (failed _) = get_observed_generation key st

  -- The resource that the API server returns has the requested name.
  abbrev IsNamed : NamespacedName → Fetch ModelValidation → Type 0
  IsNamed key (found mv) = mv_key mv ≡ key
  IsNamed key not_found = Unit
  IsNamed key (failed _) = Unit

  found-expected :
      (key : NamespacedName) (mv : ModelValidation) (st : StatusTracker) (t : Option ℕ)
      → IsConsistent st
      → mv_key mv ≡ key
      → get_observed_generation key (reconcile_found digest key mv st t).0
        ≡ elim t [ some _ ↦ (0, false) | none ↦ (mv.generation, true) ]
  found-expected key mv st (some _) c e = get_observed_generation-remove_model_validation key st
  found-expected key mv st none c e =
      subst
        (λ k. get_observed_generation k (add_model_validation digest mv st) ≡ (mv.generation, true))
        e (get_observed_generation-add_model_validation digest mv st c)

  -- A tracker that is consistent stays so when the reconciler runs for a resource. When the lookup
  -- found the resource (under the requested name) and it is not being deleted, the tracker has it
  -- afterwards with this generation; when the lookup found none, or one that is being deleted, the
  -- tracker does not have it; and when the lookup failed, what the tracker has for it is as before.
  pub reconcile-tracks :
      (key : NamespacedName) (mv : Fetch ModelValidation) (st : StatusTracker)
      → IsConsistent st
      → IsNamed key mv
      → IsConsistent (reconcile digest key mv st).0
        × (get_observed_generation key (reconcile digest key mv st).0 ≡ expected st key mv)
  unfolding reconcile
  reconcile-tracks key (found mv) st c e = (
    reconcile_found-IsConsistent key mv st mv.deletion_timestamp c,
    found-expected key mv st mv.deletion_timestamp c e,
  )
  reconcile-tracks key not_found st c e = (
    remove_model_validation-IsConsistent key st c,
    get_observed_generation-remove_model_validation key st,
  )
  reconcile-tracks key (failed m) st c e = (c, refl)
