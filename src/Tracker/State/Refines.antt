-- ===== src/Tracker/State/Refines.antt =====
-- internal/tracker/status_tracker.go implements the specification: what the tracker knows after an
-- event is what the specification learns from it.
use model_validation_operato.Base.{
  ◌≡◌, refl, ap, ℕ, String, Bool, Option, none, some, arith, NamespacedName, key_eq, string_eq,
  nat_eq, ◌==◌, inl, inr, Option-cases, Bool-cases,
}
use model_validation_operato.Base.Map
use model_validation_operato.Constants.{model_validation_finalizer}
use model_validation_operato.Kube.{Pod, Finalizers}
use model_validation_operato.Api.{ModelValidation}
use model_validation_operato.Api.Hash.{get_config_hash}
use model_validation_operato.Api.Method.{get_auth_method}
use model_validation_operato.Tracker.Info.{
  ModelValidationInfo, new_model_validation_info, remove_pod, update_config,
}
use model_validation_operato.Tracker.Info.View.{IsWellFormed, view, view-remove_pod}
use model_validation_operato.Tracker.Info.Drift.{update_config_lem}
use model_validation_operato.Tracker.State.{
  StatusTracker, add_model_validation, remove_model_validation, process_pod_event_common,
  remove_pod_event, process_for, start_tracking, update_tracking, pod_info_of, mv_key, file_pod,
  info_of,
}
use model_validation_operato.Tracker.State.Removal.{get-remove_pod_everywhere}
use model_validation_operato.Tracker.State.Consistent.{IsConsistent}
use model_validation_operato.Tracker.State.Views.{view-file_pod}
use model_validation_operato.Tracker.State.Seeding.{config_of-file_pod}
use model_validation_operato.Tracker.State.Spec.{
  renew, Entry, Known, Notice, tracks, files, untracks, forgets, file, forget, track, learn,
}

abbrev pub entry_of : ModelValidationInfo → Entry
entry_of info = record {
  config_hash = info.config_hash;
  auth_method = info.auth_method;
  generation = info.observed_generation;
  pods = λ u. view u info;
}

abbrev pub entry_at : Option ModelValidationInfo → Option Entry
entry_at none = none
entry_at (some info) = some (entry_of info)

-- What the tracker knows.
abbrev pub known_of : StatusTracker → Known
known_of st j = entry_at (Map.get j st.model_validations)

pub Entry-path :
    (e e' : Entry)
    → e.config_hash ≡ e'.config_hash
    → e.auth_method ≡ e'.auth_method
    → e.generation ≡ e'.generation
    → ((u : String) → e.pods u ≡ e'.pods u)
    → e ≡ e'
Entry-path e e' h a g p =
    λ i. record { config_hash = h i; auth_method = a i; generation = g i; pods = λ u. p u i }

entry_of-remove_pod :
    (uid : String) (info : ModelValidationInfo)
    → IsWellFormed info
    → entry_of (remove_pod uid info).0 ≡ forget uid (entry_of info)
unfolding remove_pod Map.has
entry_of-remove_pod uid info w =
    Entry-path _ _ (ground arith) (ground arith) (ground arith) (λ u. view-remove_pod u uid info w)

pub known-remove_pod_event :
    (uid : String) (st : StatusTracker)
    → IsConsistent st
    → known_of (remove_pod_event uid st) ≡ learn (forgets uid) (known_of st)
unfolding remove_pod_event
known-remove_pod_event uid st c = λ i j. at j i
  where
    at :
        (j : NamespacedName)
        → known_of (remove_pod_event uid st) j ≡ learn (forgets uid) (known_of st) j
    at j = elim (Option-cases (Map.get j st.model_validations)) [
      | inl e ↦ rw (get-remove_pod_everywhere j uid st.model_validations, e) refl
      | inr (info, e) ↦
          rw (get-remove_pod_everywhere j uid st.model_validations, e)
            (ap some (entry_of-remove_pod uid info (c.infos j info e)))
    ]

pub known-remove_model_validation :
    (key : NamespacedName) (st : StatusTracker)
    → known_of (remove_model_validation key st) ≡ learn (untracks key) (known_of st)
unfolding remove_model_validation
known-remove_model_validation key st = λ i j. at j i
  where
    at :
        (j : NamespacedName)
        → known_of (remove_model_validation key st) j ≡ learn (untracks key) (known_of st) j
    at j = ground (arith, Map.get-delete j key st.model_validations)

module _ (F : Finalizers) where
  abbrev pub finalized : Pod → Bool
  finalized pod = F.contains model_validation_finalizer pod.finalizers

  entry_of-file_pod :
      (pod : Pod) (info : ModelValidationInfo)
      → IsWellFormed info
      → entry_of (file_pod F pod info).0 ≡ file (finalized pod) (pod_info_of pod) (entry_of info)
  entry_of-file_pod pod info w =
      let same = config_of-file_pod F pod info in
      Entry-path _ _ (ground (arith, same)) (ground (arith, same)) (ground (arith, same))
        (λ u. view-file_pod F u pod info w)

  pub known-process_for :
      (pod : Pod) (key : NamespacedName) (st : StatusTracker)
      → IsConsistent st
      → known_of (process_for F pod key st)
        ≡ learn (files key (finalized pod) (pod_info_of pod)) (known_of st)
  unfolding process_for process_pod_event_common
  known-process_for pod key st c = λ i j. at j i
    where
      at :
          (j : NamespacedName)
          → known_of (process_for F pod key st) j
            ≡ learn (files key (finalized pod) (pod_info_of pod)) (known_of st) j
      at j = elim (Option-cases (Map.get key st.model_validations)) [
        | inl e ↦ rw e (ground arith)
        | inr (info, e) ↦ rw e (
            ground (
              arith,
              Map.get-put j key (file_pod F pod info).0 st.model_validations,
              entry_of-file_pod pod info (c.infos key info e),
            ))
      ]

module _ (digest : String → String) where
  -- The notice of a resource.
  abbrev pub tracks_mv : ModelValidation → Notice
  tracks_mv mv = tracks (mv_key mv) (get_config_hash digest mv) (get_auth_method mv) mv.generation

  entry_of-update_config :
      (h a : String) (g : ℕ) (info : ModelValidationInfo)
      → IsWellFormed info
      → entry_of (update_config h a g info).0 ≡ renew h a g (entry_of info)
  entry_of-update_config h a g info w =
      let (_, (eh, ea, eg, _), _) = update_config_lem h a g info w "" in
      Entry-path _ _ eh ea eg (λ u. (update_config_lem h a g info w u).0)

  entry_of-new :
      (mv : ModelValidation)
      → entry_of (info_of digest mv)
        ≡ track (get_config_hash digest mv) (get_auth_method mv) mv.generation none
  unfolding new_model_validation_info view Map.get
  entry_of-new mv = refl

  pub known-add_model_validation :
      (mv : ModelValidation) (st : StatusTracker)
      → IsConsistent st
      → known_of (add_model_validation digest mv st) ≡ learn (tracks_mv mv) (known_of st)
  unfolding add_model_validation start_tracking update_tracking
  known-add_model_validation mv st c = λ i j. at j i
    where
      at :
          (j : NamespacedName)
          → known_of (add_model_validation digest mv st) j ≡ learn (tracks_mv mv) (known_of st) j
      at j =
          let h = get_config_hash digest mv in
          let a = get_auth_method mv in
          elim (Option-cases (Map.get (mv_key mv) st.model_validations)) [
            | inl e ↦ rw e (
                ground (
                  arith,
                  Map.get-put j (mv_key mv) (info_of digest mv) st.model_validations,
                  entry_of-new mv,
                ))
            | inr (info, e) ↦ rw e (elim (Bool-cases (mv.generation == info.observed_generation)) [
              | inl g ↦ rw g (ground (arith, e))
              | inr g ↦ rw g (
                  ground (
                    arith,
                    Map.get-put j (mv_key mv) (update_config h a mv.generation info).0
                        st.model_validations,
                    entry_of-update_config h a mv.generation info (c.infos (mv_key mv) info e),
                  ))
            ])
          ]
