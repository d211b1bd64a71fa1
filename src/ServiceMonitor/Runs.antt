-- ===== src/ServiceMonitor/Runs.antt =====
-- internal/servicemonitor/servicemonitor.go: how the creator's run ends, and what it leaves.
use model_validation_operato.Base.{
  ◌≡◌, ◌≢◌, ◌∙◌, refl, ap, sym, String, true, Option, none, some, [], ◌∷◌, inl, inr, Option-cases,
  Bool-cases, NamespacedName, arith,
}
use model_validation_operato.Kube.{Upsert, IsUpsert, found_or}
use model_validation_operato.ServiceMonitor.{
  Options, ServiceMonitor, Discovery, is_service_monitor_crd_available, build_service_monitor,
  apply_spec, endpoint, monitor_key, Started, returned, waits, start,
}

module _ {Store : Type 0} (U : Upsert ServiceMonitor Store) (discovery : Discovery) (opts : Options)
    (store : Store) where
  abbrev key : NamespacedName
  key = monitor_key (build_service_monitor opts)

  -- The ways in which a run ends.
  pub data IsEnding : Started × Store → Type 0 where
    skipped :
        is_service_monitor_crd_available discovery ≢ some true → IsEnding (returned none, store)
    rejected :
        (error : String) (store' : Store)
        → is_service_monitor_crd_available discovery ≡ some true
        → IsEnding (returned none, store')
    made :
        (sm : ServiceMonitor) (store' : Store)
        → is_service_monitor_crd_available discovery ≡ some true
        → U.lookup key store' ≡ some sm
        → sm.endpoints ≡ endpoint opts ∷ []
        → ((other : NamespacedName) → other ≢ key → U.lookup other store' ≡ U.lookup other store)
        → IsEnding (waits, store')

  module _ (law : IsUpsert U) where
    attempt :
        (error : Option String) (store' : Store)
        → is_service_monitor_crd_available discovery ≡ some true
        → U.create_or_update key (apply_spec opts) (build_service_monitor opts) store
          ≡ (error, store')
        → IsEnding (elim error [ some e ↦ (returned none, store') | none ↦ (waits, store') ])
    unfolding apply_spec
    attempt (some e) store' a h = rejected e store' a
    attempt none store' a h =
        let given = build_service_monitor opts in
        made (apply_spec opts (found_or (U.lookup key store) given)) store' a
          (rw (sym (ap (λ r. r.1) h))
            (law.stored key (apply_spec opts) given store (ap (λ r. r.0) h)))
          refl
          (λ other differs.
            rw (sym (ap (λ r. r.1) h)) (law.others key other (apply_spec opts) given store differs))

    -- Start never returns an error. Without the kind ServiceMonitor on the cluster it returns and
    -- leaves the cluster as it is; when the API server refuses the object it returns; otherwise it
    -- waits, the one endpoint of the monitor is that of the options, and no other monitor has
    -- changed.
    pub start-IsEnding : IsEnding (start U discovery opts store)
    unfolding start
    start-IsEnding = elim (Option-cases (is_service_monitor_crd_available discovery)) [
      | inl e ↦ rw (e, start) (skipped (λ h. ground arith))
      | inr (b, e) ↦ elim (Bool-cases b) [
        | inr f ↦ rw (e ∙ ap some f, start) (skipped (λ h. ground arith))
        | inl f ↦
            rw (e ∙ ap some f, start)
              (attempt
                (U.create_or_update key (apply_spec opts) (build_service_monitor opts) store).0
                (U.create_or_update key (apply_spec opts) (build_service_monitor opts) store).1
                (e ∙ ap some f) refl)
      ]
    ]
