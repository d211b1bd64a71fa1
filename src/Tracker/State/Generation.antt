-- ===== src/Tracker/State/Generation.antt =====
-- internal/tracker/status_tracker.go: the generation that is tracked for a resource.
use model_validation_operato.Base.{
  ◌≡◌, refl, ap, ◌∙◌, String, true, false, some, arith, inl, inr, NamespacedName, key_eq, nat_eq,
  ◌!=◌, Option-cases, Bool-cases,
}
use model_validation_operato.Base.Map
use model_validation_operato.Api.{ModelValidation}
use model_validation_operato.Api.Hash.{get_config_hash}
use model_validation_operato.Api.Method.{get_auth_method}
use model_validation_operato.Tracker.Info.{
  ModelValidationInfo, new_model_validation_info, update_config,
}
use model_validation_operato.Tracker.Info.Drift.{update_config_lem}
use model_validation_operato.Tracker.State.{
  StatusTracker, mv_key, add_model_validation, remove_model_validation, get_observed_generation,
  start_tracking, update_tracking, info_of,
}
use model_validation_operato.Tracker.State.Consistent.{IsConsistent}

observed_put :
    (key : NamespacedName) (info : ModelValidationInfo) (st : StatusTracker)
    → Map.get key st.model_validations ≡ some info
    → get_observed_generation key st ≡ (info.observed_generation, true)
unfolding get_observed_generation
observed_put key info st e = rw (e, get_observed_generation) refl

module _ (digest : String → String) where
  observed_start :
      (mv : ModelValidation) (st : StatusTracker)
      → get_observed_generation (mv_key mv) (start_tracking digest mv st) ≡ (mv.generation, true)
  unfolding start_tracking new_model_validation_info
  observed_start mv st =
      observed_put (mv_key mv) (info_of digest mv) (start_tracking digest mv st)
        (Map.get-put_same (mv_key mv) (info_of digest mv) st.model_validations)

  observed_update :
      (mv : ModelValidation) (info : ModelValidationInfo) (st : StatusTracker)
      → IsConsistent st
      → Map.get (mv_key mv) st.model_validations ≡ some info
      → get_observed_generation (mv_key mv) (update_tracking digest mv info st)
        ≡ (mv.generation, true)
  unfolding update_tracking
  observed_update mv info st c e =
      let h = get_config_hash digest mv in
      let a = get_auth_method mv in
      let info' = (update_config h a mv.generation info).0 in
      let (_, (_, _, g, _), _) =
        update_config_lem h a mv.generation info (c.infos (mv_key mv) info e) "" in
      observed_put (mv_key mv) info' (update_tracking digest mv info st)
        (Map.get-put_same (mv_key mv) info' st.model_validations)
      ∙ ap (λ n. (n, true)) g

  -- After `AddModelValidation` the resource is tracked with the generation that was handed over.
  pub get_observed_generation-add_model_validation :
      (mv : ModelValidation) (st : StatusTracker)
      → IsConsistent st
      → get_observed_generation (mv_key mv) (add_model_validation digest mv st)
        ≡ (mv.generation, true)
  unfolding add_model_validation get_observed_generation
  get_observed_generation-add_model_validation mv st c =
      elim (Option-cases (Map.get (mv_key mv) st.model_validations)) [
        | inl e ↦ rw e (observed_start mv st)
        | inr (info, e) ↦ rw e (elim (Bool-cases (mv.generation != info.observed_generation)) [
          | inl d ↦ rw d (observed_update mv info st c e)
          | inr d ↦
              rw d (observed_put (mv_key mv) info st e ∙ ap (λ n. (n, true)) (ground (arith, d)))
        ])
      ]

-- After `RemoveModelValidation` the resource is not tracked.
pub get_observed_generation-remove_model_validation :
    (key : NamespacedName) (st : StatusTracker)
    → get_observed_generation key (remove_model_validation key st) ≡ (0, false)
unfolding get_observed_generation remove_model_validation
get_observed_generation-remove_model_validation key st =
    ground (arith, Map.get-delete key key st.model_validations)
